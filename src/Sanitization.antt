-- ===== src/Sanitization.antt =====
-- Secrets are taken out of the texts that are shown: redact-token-in-url.ts and
-- normalize-cause-message.ts of apps/web/src/features/terminal/shared/sanitization. `URL` is the
-- browser's: a record of what the source uses of it.
pub mod Copying
pub mod Secrecy
mod Examples
use wootty.Base.{
  ℕ, zero, suc, Bool, true, false, not, ◌&&◌, ◌||◌, [], ◌∷◌, ◌++◌, Option, none, some, Text, codes,
  leb, ◌==◌, if◌then◌else◌, ◌+◌, ◌-◌, take, length, is_space, trim,
}

pub record UrlApi (U : Type 0) : Type 0 where
  -- `none` where `new URL(text)` throws
  pub parse : Text → Option U
  pub protocol : U → Text
  pub has_token : U → Bool
  pub set_token : U → Text → U
  pub to_text : U → Text

abbrev pub lower : ℕ → ℕ
lower c = if leb 65 c && leb c 90 then c + 32 else c

-- Where the matcher of `/([?&]token=)[^&]+/gi` stands: before a match, in the group with so many
-- characters to copy, or in the part that is replaced.
pub data Mode : Type 0 where
  scan skip : Mode
  copy : ℕ → Mode

-- The two expressions differ in the characters that end the part that is replaced.
module _ (stops : ℕ → Bool) where
  -- The text goes on with `word` in either case, and then with a character that is replaced.
  unfoldable pub continues : Text → Text → Bool
  continues [] [] = false
  continues [] (c ∷ s) = not (stops c)
  continues (d ∷ word) [] = false
  continues (d ∷ word) (c ∷ s) = lower c == d && continues word s

  unfoldable pub starts_match : ℕ → Text → Bool
  unfolding continues
  starts_match c s = (c == b'?' || c == b'&') && continues (codes "token=") s

  abbrev pub scan_next : ℕ → Text → Mode
  scan_next c s = if starts_match c s then copy 5 else scan

  unfoldable pub next_mode : Mode → ℕ → Text → Mode
  next_mode scan c s = scan_next c s
  next_mode (copy zero) c s = skip
  next_mode (copy (suc n)) c s = copy n
  next_mode skip c s = if stops c then scan_next c s else skip

  unfoldable pub emit : Mode → ℕ → Text
  emit scan c = c ∷ []
  emit (copy zero) c = c ∷ codes "[redacted]"
  emit (copy (suc n)) c = c ∷ []
  emit skip c = if stops c then c ∷ [] else []

  unfoldable pub redact_from : Mode → Text → Text
  redact_from m [] = []
  redact_from m (c ∷ s) = emit m c ++ redact_from (next_mode m c s) s

abbrev pub is_ampersand : ℕ → Bool
is_ampersand c = c == b'&'

-- `rawUrl.replace(/([?&]token=)[^&]+/gi, "$1[redacted]")`.
unfoldable pub redact_text : Text → Text
unfolding redact_from emit next_mode starts_match continues
redact_text raw = redact_from is_ampersand scan raw

abbrev pub ends_cause : ℕ → Bool
ends_cause c = c == b'&' || is_space c

-- `value.replace(/([?&]token=)[^&\s]+/gi, "$1[redacted]")`.
unfoldable pub redact_cause_message : Text → Text
unfolding redact_from emit next_mode starts_match continues
redact_cause_message value = redact_from ends_cause scan value

abbrev max_cause_message_length : ℕ
max_cause_message_length = 180

unfoldable pub truncate_cause_message : Text → Text
truncate_cause_message value =
    if leb (length value) max_cause_message_length
    then value
    else take (max_cause_message_length - 3) value ++ codes "..."

-- The text begins with "%5Bredacted%5D" in either case.
begins : Text → Text → Bool
begins [] s = true
begins (d ∷ word) [] = false
begins (d ∷ word) (c ∷ s) = lower c == d && begins word s

abbrev begins_escaped : Text → Bool
begins_escaped s = begins (codes "%5bredacted%5d") s

-- `value.replace(/%5Bredacted%5D/gi, "[redacted]")`. So many characters of a match are left to drop.
unfoldable pub restore_marker : ℕ → Text → Text
unfolding begins
restore_marker n [] = []
restore_marker (suc n) (c ∷ s) = restore_marker n s
restore_marker zero (c ∷ s) =
    let rest = restore_marker (if begins_escaped (c ∷ s) then 13 else zero) s in
    if begins_escaped (c ∷ s) then codes "[redacted]" ++ rest else c ∷ rest

module _ {U : Type 0} (api : UrlApi U) where
  open api use {parse, has_token, set_token, to_text}

  unfoldable pub redact_token_in_url_for_notice : Text → Text
  redact_token_in_url_for_notice raw = elim (parse raw) [
    | none ↦ redact_text raw
    | some parsed ↦
        to_text (if has_token parsed then set_token parsed (codes "[redacted]") else parsed)
  ]

  -- `none` for null
  unfoldable pub normalize_text : Text → Option Text
  unfolding restore_marker begins
  normalize_text value = elim (trim value) [
    | [] ↦ none
    | c ∷ rest ↦
        let sanitized = redact_token_in_url_for_notice (redact_cause_message (c ∷ rest)) in
        some (truncate_cause_message (restore_marker zero sanitized))
  ]

-- `unknown`, as far as the source tells its values apart.
pub data Cause : Type 0 where
  null undefined other : Cause
  text : Text → Cause
  -- an `Error` or a `DOMException`, with its message
  thrown : Text → Cause
  -- a number or a boolean, with what `String` gives of it
  primitive : Text → Cause
  -- an object, with what `JSON.stringify` gives of it: `none` where it throws
  object : Option Text → Cause

module _ {U : Type 0} (api : UrlApi U) where
  unfoldable pub normalize_cause_to_message : Cause → Option Text
  normalize_cause_to_message null = none
  normalize_cause_to_message undefined = none
  normalize_cause_to_message (text value) = normalize_text api value
  normalize_cause_to_message (thrown value) = normalize_text api value
  normalize_cause_to_message (primitive shown) = some shown
  normalize_cause_to_message (object (some json)) = normalize_text api json
  normalize_cause_to_message (object none) = none
  normalize_cause_to_message other = none
