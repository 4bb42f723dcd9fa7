-- ===== src/Response.antt =====
-- src/http_relay/response.rs.
use Prim.Native.String.{len}
use http_relay.Base.{
  ℕ, String, ◌≡◌, refl, Option, none, some, Result, ok, err, ltb, bytes, ne_of_test, if◌then◌else◌,
  ◌++◌, ◌∙◌,
}
use http_relay.Types.{Bytes, Message}
use http_relay.Status
use http_relay.Headers.{Headers, Response}

abbrev pub max_id_length : ℕ
max_id_length = 256

-- A `(StatusCode, Bytes)`.
abbrev pub Simple : Type 0
Simple = ℕ × Bytes

-- `validate_id_length`: `len` counts the bytes of UTF-8.
unfoldable pub validate_id_length : String → String → Result (Unit {0}) Simple
validate_id_length id id_name =
    if ltb max_id_length (len id)
    then err (Status.bad_request, bytes id_name ++ bytes " too long")
    else ok tt

module _ (h : Headers) where
  -- `(StatusCode, Bytes).into_response()`
  abbrev pub into_response : Simple → Response h
  into_response (status, body) = record { status = status; headers = h.of_bytes; body = body }

  -- `message.content_type.and_then(|ct| ct.parse().ok())`
  abbrev pub parsed : Option String → Option h.Value
  parsed none = none
  parsed (some ct) = h.parse ct

  abbrev pub with_content_type : Option h.Value → h.Map → h.Map
  with_content_type none m = m
  with_content_type (some v) m = h.insert "content-type" v m

  unfoldable pub message_response : Message → Response h
  message_response message =
      let headers = with_content_type (parsed message.content_type) h.of_bytes in
      let headers' = h.insert "content-security-policy" (h.from_static "sandbox") headers in
      record {
        status = Status.ok;
        headers = h.insert "x-content-type-options" (h.from_static "nosniff") headers';
        body = message.body;
      }

  -- Every relayed message is answered with 200, sandboxed and not sniffed, whatever its producer
  -- sent; its body is forwarded as it is, and so is its content type where that is a valid header
  -- value.
  pub message_response_inert :
      (message : Message)
      → ((message_response message).status ≡ 200)
        × ((message_response message).body ≡ message.body)
        × (h.get "content-security-policy" (message_response message).headers
            ≡ some (h.from_static "sandbox"))
        × (h.get "x-content-type-options" (message_response message).headers
            ≡ some (h.from_static "nosniff"))
        × (h.get "content-type" (message_response message).headers
            ≡ elim (parsed message.content_type) [
              | none ↦ h.get "content-type" h.of_bytes
              | some v ↦ some v
            ])
  unfolding message_response
  message_response_inert message = (
    refl,
    refl,
    h.get-insert_ne _ _ (ne_of_test "x-content-type-options" "content-security-policy" refl)
        ∙ h.get-insert_self _ _ _,
    h.get-insert_self _ _ _,
    h.get-insert_ne _ _ (ne_of_test "x-content-type-options" "content-type" refl)
        ∙ h.get-insert_ne _ _ (ne_of_test "content-security-policy" "content-type" refl)
        ∙ content_type (parsed message.content_type),
  )
    where
      content_type :
          (v : Option h.Value)
          → h.get "content-type" (with_content_type v h.of_bytes)
            ≡ elim v [ none ↦ h.get "content-type" h.of_bytes | some v ↦ some v ]
      content_type none = refl
      content_type (some v) = h.get-insert_self "content-type" v h.of_bytes
