-- ===== src/Tests/Service.antt =====
-- The host of linux/native_host/native_host.c on concrete messages.
use sdk_native.Prelude.{
  ℕ, ◌<◌, ◌≡◌, refl, List, [], ◌++◌, Bool, true, false, some, codes, length, arith,
}
use sdk_native.Protocol.{RootHeraldResult}
use sdk_native.Json.{escape_char}
use sdk_native.Json.Field.{escape, field_head, string_field}
use sdk_native.Host.{
  le32, Client, read_message, write_message, dispatch, main_loop, handle_attest, answer,
}
use sdk_native.Host.Object.{object_text, is_text_sound}
use sdk_native.Host.Answer.{reply, attest_data, attest_answer}
use sdk_native.Host.Dispatch.{field, dispatch_lem}
use sdk_native.Host.Frame.{read-write, main_loop-fuel}
use sdk_native.Host.Replies.{handle_attest_lem}

abbrev dirt : ℕ → ℕ
dirt n = 204

abbrev plenty : ℕ → Bool
plenty n = true

abbrev device : Client
device = record {
  get_status = (
    RootHeraldResult.rh_proto_ok,
    record {
      is_enrolled = false;
      device_id = codes "d1";
      platform = codes "linux";
      has_tpm = true;
    },
  );
  enroll = λ url force. (
    RootHeraldResult.rh_proto_ok,
    record { device_id = codes "d1"; credential_blob = []; encrypted_secret = [] },
  );
  attest = λ url session nonce n. (
    RootHeraldResult.rh_proto_err_attestation_failed,
    record {
      session_id = [];
      status = codes "failed";
      authorization_code = [];
      redirect_uri = codes "https://r/";
      failure_reason = codes "Quote failed";
    },
  );
}

shown_whole : length (object_text (attest_data (device.attest [] [] [] 0).1)) < 4096
unfolding string_field field_head escape escape_char
shown_whole = omega arith

abbrev ask_status : List ℕ
ask_status = codes "{\"action\":\"status\",\"id\":\"7\"}"

abbrev ask_nothing : List ℕ
ask_nothing = codes "{\"action\":3}"

frame_length : length (write_message (codes "{}")) ≡ 6
unfolding write_message le32
frame_length = omega arith

read-write_example :
    read_message plenty (write_message ask_nothing ++ codes "more")
    ≡ some (ask_nothing, codes "more")
read-write_example = read-write plenty ask_nothing (codes "more") (omega arith) refl

main_loop-fuel_example :
    main_loop dirt 40 plenty (λ n. device) (write_message (codes "{}"))
    ≡ main_loop dirt 7 plenty (λ n. device) (write_message (codes "{}"))
main_loop-fuel_example =
    main_loop-fuel dirt 40 7 plenty (λ n. device) (write_message (codes "{}"))
      (omega (arith, frame_length)) (omega (arith, frame_length))

dispatch_example :
    dispatch dirt device ask_status
    ≡ answer dirt device
        (field ask_status "action" 64)
        (field ask_status "id" 64)
        (field ask_status "serverUrl" 2048)
        (field ask_status "sessionId" 64)
        (field ask_status "nonce" 4096)
dispatch_example = dispatch_lem dirt device ask_status (is_text_sound ask_status refl)

handle_attest_example :
    handle_attest dirt device (codes "7") (codes "https://h") (codes "s") (codes "n")
    ≡ some (reply (codes "7") (attest_answer device (codes "https://h") (codes "s") (codes "n")))
handle_attest_example =
    handle_attest_lem dirt (codes "7") (omega arith, is_text_sound (codes "7") refl) device
      (codes "https://h") (codes "s") (codes "n") tt (is_text_sound (codes "failed") refl)
      (is_text_sound (codes "https://r/") refl) shown_whole
      (omega arith, is_text_sound (codes "Quote failed") refl)
