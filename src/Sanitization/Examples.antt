-- ===== src/Sanitization/Examples.antt =====
-- Runs of the redactions on concrete texts.
use wootty.Base.{false, [], none, some, Text, codes, ◌≡◌, refl, trim}
use wootty.Sanitization.{
  UrlApi, normalize_text, redact_token_in_url_for_notice, redact_text, normalize_cause_to_message,
  text, redact_cause_message, truncate_cause_message, restore_marker,
}

-- A parser that takes nothing for a URL.
abbrev no_urls : UrlApi Text
no_urls = record {
  parse = λ _. none;
  protocol = λ _. [];
  has_token = λ _. false;
  set_token = λ u t. u;
  to_text = λ u. u;
}

redacts_upper_case : redact_text (codes "x?a=1&TOKEN=abc&b=2") ≡ codes "x?a=1&TOKEN=[redacted]&b=2"
unfolding redact_text
redacts_upper_case = refl

leaves_empty_token : redact_text (codes "x?token=&b=2") ≡ codes "x?token=&b=2"
unfolding redact_text
leaves_empty_token = refl

-- The second redaction takes what follows the token up to "&", spaces too.
shows_a_cause :
    normalize_cause_to_message no_urls (text (codes " GET /ws?token=abc failed "))
    ≡ some (codes "GET /ws?token=[redacted]")
unfolding normalize_cause_to_message normalize_text trim truncate_cause_message
    redact_token_in_url_for_notice redact_text redact_cause_message restore_marker
shows_a_cause = refl

restores_the_marker :
    restore_marker 0 (codes "?token=%5BREDACTED%5d&a") ≡ codes "?token=[redacted]&a"
unfolding restore_marker
restores_the_marker = refl
