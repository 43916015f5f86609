-- ===== src/FontSize.antt =====
-- The size of the font that the browser keeps (apps/web/src/features/terminal/app/preferences/
-- font-size-preferences.ts, preferences/font-size-policy.ts and contracts/storage-access.ts). Sizes
-- are whole numbers.
pub mod Bounds
mod Examples
use wootty.Base.{
  ℕ, zero, suc, ◌+◌, ◌-◌, ◌*◌, ◌^◌, min, max, Bool, true, false, ◌&&◌, List, [], ◌∷◌, Option, none,
  some, Text, codes, decimal, trim, ltb, leb, if◌then◌else◌,
}
use wootty.Persistence.{
  StorageOperation, read, write, parse, StorageFailureReason, invalid_value, StorageFailure, Tried,
  threw, returned, StorageApi, access_failure,
}

abbrev pub font_size_min : ℕ
font_size_min = 11

abbrev pub font_size_max : ℕ
font_size_max = 22

abbrev pub font_size_key : Text
font_size_key = codes "wootty.fontSize"

unfoldable pub clamp_font_size : ℕ → ℕ
clamp_font_size value = min font_size_max (max font_size_min value)

abbrev pub with_storage_error_handling :
    {A : Type 0} → StorageOperation → Text → Tried A → Option A × Option StorageFailure
with_storage_error_handling operation key threw = (none, some (access_failure operation key))
with_storage_error_handling operation key (returned value) = (some value, none)

-- `/^\d+$/u`.
abbrev is_digit : ℕ → Bool
is_digit c = leb 48 c && leb c 57

abbrev pub all_digits : Text → Bool
all_digits [] = true
all_digits (c ∷ t) = is_digit c && all_digits t

abbrev pub is_whole : Text → Bool
is_whole [] = false
is_whole (c ∷ t) = all_digits (c ∷ t)

-- `Number` of a text of digits; from 2 ^ 1024 - 2 ^ 970 on it is Infinity, which is no integer.
abbrev pub digits_from : ℕ → Text → ℕ
digits_from n [] = n
digits_from n (c ∷ t) = digits_from (10 * n + (c - 48)) t

abbrev pub is_finite : ℕ → Bool
is_finite n = ltb n (2 ^ 1024 - 2 ^ 970)

abbrev pub invalid_font_size : ℕ × Option StorageFailure
invalid_font_size = (
  font_size_min,
  some (record { operation = parse; key = font_size_key; reason = some invalid_value }),
)

abbrev pub size_of : ℕ → ℕ × Option StorageFailure
size_of n = if is_finite n then (clamp_font_size n, none) else invalid_font_size

abbrev pub size_of_text : Text → ℕ × Option StorageFailure
size_of_text normalized =
    if is_whole normalized then size_of (digits_from 0 normalized) else invalid_font_size

abbrev pub size_of_raw : Option (Option Text) × Option StorageFailure → ℕ × Option StorageFailure
size_of_raw (value, some error) = (font_size_min, some error)
size_of_raw (none, none) = (font_size_min, none)
size_of_raw (some none, none) = (font_size_min, none)
size_of_raw (some (some []), none) = (font_size_min, none)
size_of_raw (some (some (c ∷ raw)), none) = size_of_text (trim (c ∷ raw))

module _ {St : Type 0} (api : StorageApi St) where
  unfoldable pub read_initial_font_size : Option St → ℕ × Option StorageFailure
  unfolding clamp_font_size trim
  read_initial_font_size none = (font_size_min, none)
  read_initial_font_size (some st) =
      size_of_raw (with_storage_error_handling read font_size_key (api.get_item font_size_key st))

  -- The storage after the call, and the failure.
  abbrev pub written : Tried St → St → St × Option StorageFailure
  written threw st = (st, some (access_failure write font_size_key))
  written (returned st') st = (st', none)

  unfoldable pub write_font_size_preference : Option St → ℕ → Option St × Option StorageFailure
  unfolding clamp_font_size decimal
  write_font_size_preference none size = (none, none)
  write_font_size_preference (some st) size =
      let (st', error) =
        written (api.set_item font_size_key (decimal (clamp_font_size size)) st) st in
      (some st', error)
