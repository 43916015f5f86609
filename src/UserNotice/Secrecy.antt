-- ===== src/UserNotice/Secrecy.antt =====
-- No notice shows a token that stands in a cause or a detail.
use wootty.Base.{ℕ, ◌∷◌, Option, none, some, Text, ◌≡◌, refl, ap}
use wootty.Sanitization.{UrlApi, text, thrown, ends_cause}
use wootty.Sanitization.Copying.{Separator, Replaced}
use wootty.Sanitization.Secrecy.{with_token, normalize_cause_to_message_secret}
use wootty.Protocol.ServerMessages.{ProtocolFailureDetail}
use wootty.Persistence.{StorageOperation}
use wootty.UserNotice.{
  TransportNotice, malformed_payload, of_cause, sessions_refresh, storage, fullscreen, runtime,
  protocol, transport, to_user_notice, to_transport_notice, to_protocol_notice,
  to_session_refresh_notice, to_fullscreen_notice, to_runtime_notice,
  to_storage_failure_notice_details, describe_storage_failure_reason, not_empty,
}

module _ {U : Type 0} (api : UrlApi U) where
  -- Take two texts that differ in a token only, which stands after "?token=" or "&token=" and has
  -- one or more characters, none of them "&" or a space. Whichever of them is the cause, the debug
  -- detail with no message, or the message of a transport failure, or the message of an error that stopped the
  -- fullscreen mode, the runtime, a server message, a refresh or a storage access, the notice is
  -- the same.
  pub to_user_notice_secret :
      (n : TransportNotice) (detail : Option ProtocolFailureDetail) (operation : StorageOperation)
      (key : Text) (a : Text) (c d e : ℕ) (v w b : Text)
      → Separator c
      → Replaced ends_cause (d ∷ v)
      → Replaced ends_cause (e ∷ w)
      → (to_user_notice api (transport (record n { cause = text (with_token a c (d ∷ v) b) }))
          ≡ to_user_notice api (transport (record n { cause = text (with_token a c (e ∷ w) b) })))
        × (to_user_notice api (
              transport (record n {
                debug_detail = some (with_token a c (d ∷ v) b);
                notice_message = none;
              }))
            ≡ to_user_notice api (
                transport (record n {
                  debug_detail = some (with_token a c (e ∷ w) b);
                  notice_message = none;
                })))
        × (to_user_notice api
              (transport (record n { notice_message = some (with_token a c (d ∷ v) b) }))
            ≡ to_user_notice api
                (transport (record n { notice_message = some (with_token a c (e ∷ w) b) })))
        × (to_user_notice api (fullscreen (thrown (with_token a c (d ∷ v) b)))
            ≡ to_user_notice api (fullscreen (thrown (with_token a c (e ∷ w) b))))
        × (to_user_notice api (runtime none (thrown (with_token a c (d ∷ v) b)))
            ≡ to_user_notice api (runtime none (thrown (with_token a c (e ∷ w) b))))
        × (to_user_notice api
              (protocol (malformed_payload detail (thrown (with_token a c (d ∷ v) b))))
            ≡ to_user_notice api
                (protocol (malformed_payload detail (thrown (with_token a c (e ∷ w) b)))))
        × (to_user_notice api (sessions_refresh (of_cause (thrown (with_token a c (d ∷ v) b))))
            ≡ to_user_notice api (sessions_refresh (of_cause (thrown (with_token a c (e ∷ w) b)))))
        × (to_user_notice api (
              to_storage_failure_notice_details api operation key none
                (thrown (with_token a c (d ∷ v) b)))
            ≡ to_user_notice api (
                to_storage_failure_notice_details api operation key none
                  (thrown (with_token a c (e ∷ w) b))))
  unfolding to_user_notice to_transport_notice to_protocol_notice to_session_refresh_notice
      to_fullscreen_notice to_runtime_notice to_storage_failure_notice_details
      describe_storage_failure_reason
  to_user_notice_secret n detail operation key a c d e v w b sep hv hw =
      let (as_text, as_error, as_json) =
        normalize_cause_to_message_secret api a c d e v w b sep hv hw in
      (
        rw as_text refl,
        rw as_text refl,
        rw as_text refl,
        rw as_error refl,
        rw as_error refl,
        rw as_error refl,
        rw as_error refl,
        ap (λ m. to_user_notice api (storage operation key (not_empty m))) as_error,
      )
