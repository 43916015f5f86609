-- ===== src/UserNotice/Examples.antt =====
-- Runs of the notices.
use wootty.Base.{trim, text_eq, join, decimal, false, [], none, some, Text, codes, ◌≡◌, refl, inl}
use wootty.Sanitization.{
  truncate_cause_message, redact_token_in_url_for_notice, redact_text, redact_cause_message,
  normalize_text, normalize_cause_to_message, UrlApi, text, thrown,
}
use wootty.Sanitization.Secrecy.{with_token}
use wootty.Transport.Contracts.{source_text, close, number, socket_failure}
use wootty.Persistence.{read}
use wootty.UserNotice.{
  to_transport_notice, to_session_refresh_notice, TransportNotice, failure_reason, to_user_notice,
  transport, sessions_refresh, fullscreen, runtime, protocol, malformed_payload, of_cause,
  to_storage_failure_notice_details, request_timeout, invalid_entries,
}
use wootty.UserNotice.Secrecy.{to_user_notice_secret}

-- A parser that takes nothing for a URL.
abbrev no_urls : UrlApi Text
no_urls = record {
  parse = λ _. none;
  protocol = λ _. [];
  has_token = λ _. false;
  set_token = λ u t. u;
  to_text = λ u. u;
}

abbrev lost : TransportNotice
lost = record {
  reason_code = failure_reason socket_failure;
  source = some close;
  code = some (number 1006);
  debug_detail = some (codes "gone");
  notice_message = none;
  cause = text (codes "gone");
}

-- A cause that repeats the detail is left out.
lost_connection :
    to_user_notice no_urls (transport lost)
    ≡ codes "Connection problem (transport failure). (close code=1006 detail=gone)"
unfolding to_user_notice to_transport_notice join source_text normalize_cause_to_message
    normalize_text trim truncate_cause_message redact_token_in_url_for_notice redact_text
    redact_cause_message decimal text_eq
lost_connection = refl

timed_out :
    to_user_notice no_urls (sessions_refresh (request_timeout 15_000))
    ≡ codes "Unable to refresh live sessions (request timed out after 15s)."
unfolding to_user_notice to_session_refresh_notice decimal
timed_out = refl

one_entry :
    to_user_notice no_urls (sessions_refresh (invalid_entries 1))
    ≡ codes "Skipped 1 malformed session entry."
unfolding to_user_notice to_session_refresh_notice decimal
one_entry = refl

to_user_notice_secret_example :
    (to_user_notice no_urls (
        transport (record lost {
          cause = text (with_token (codes "at /ws") b'?' (codes "abc") (codes ": no"));
        }))
      ≡ to_user_notice no_urls (
          transport (record lost {
            cause = text (with_token (codes "at /ws") b'?' (codes "zz9x") (codes ": no"));
          })))
    × (to_user_notice no_urls (
          transport (record lost {
            debug_detail = some (with_token (codes "at /ws") b'?' (codes "abc") (codes ": no"));
            notice_message = none;
          }))
        ≡ to_user_notice no_urls (
            transport (record lost {
              debug_detail = some (with_token (codes "at /ws") b'?' (codes "zz9x") (codes ": no"));
              notice_message = none;
            })))
    × (to_user_notice no_urls (
          transport (record lost {
            notice_message = some (with_token (codes "at /ws") b'?' (codes "abc") (codes ": no"));
          }))
        ≡ to_user_notice no_urls (
            transport (record lost {
              notice_message =
                  some (with_token (codes "at /ws") b'?' (codes "zz9x") (codes ": no"));
            })))
    × (to_user_notice no_urls
          (fullscreen (thrown (with_token (codes "at /ws") b'?' (codes "abc") (codes ": no"))))
        ≡ to_user_notice no_urls
            (fullscreen (thrown (with_token (codes "at /ws") b'?' (codes "zz9x") (codes ": no")))))
    × (to_user_notice no_urls
          (runtime none (thrown (with_token (codes "at /ws") b'?' (codes "abc") (codes ": no"))))
        ≡ to_user_notice no_urls (
            runtime none (thrown (with_token (codes "at /ws") b'?' (codes "zz9x") (codes ": no")))))
    × (to_user_notice no_urls (
          protocol (
            malformed_payload none
              (thrown (with_token (codes "at /ws") b'?' (codes "abc") (codes ": no")))))
        ≡ to_user_notice no_urls (
            protocol (
              malformed_payload none
                (thrown (with_token (codes "at /ws") b'?' (codes "zz9x") (codes ": no"))))))
    × (to_user_notice no_urls (
          sessions_refresh
            (of_cause (thrown (with_token (codes "at /ws") b'?' (codes "abc") (codes ": no")))))
        ≡ to_user_notice no_urls (
            sessions_refresh
              (of_cause (thrown (with_token (codes "at /ws") b'?' (codes "zz9x") (codes ": no"))))))
    × (to_user_notice no_urls (
          to_storage_failure_notice_details no_urls read
            (codes "k")
            none
            (thrown (with_token (codes "at /ws") b'?' (codes "abc") (codes ": no"))))
        ≡ to_user_notice no_urls (
            to_storage_failure_notice_details no_urls read
              (codes "k")
              none
              (thrown (with_token (codes "at /ws") b'?' (codes "zz9x") (codes ": no")))))
to_user_notice_secret_example =
    to_user_notice_secret no_urls lost none read (codes "k") (codes "at /ws") b'?' b'a' b'z'
      (codes "bc") (codes "z9x") (codes ": no") (inl refl) (refl, (refl, (refl, tt)))
      (refl, (refl, (refl, (refl, tt))))
