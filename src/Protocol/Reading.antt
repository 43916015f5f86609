-- ===== src/Protocol/Reading.antt =====
-- What the parser of server messages lets through, against the objects that it reads
-- (apps/web/src/features/terminal/protocol/terminal-protocol.ts).
use wootty.Base.{
  ℕ, ◌≡◌, ◌≢◌, refl, sym, ap, inl, inr, Bool, List, [], ◌∷◌, Option, none, some, Text, codes,
  text_eq, text_eq_sound, whole, Option-cases, Bool-cases, subst, ◌∙◌, if◌then◌else◌, arith,
}
use wootty.Protocol.ClientMessages.{wire_contract_version}
use wootty.Protocol.ServerMessages.{
  Value, undefined, boolean, number, string, Json, object, ServerErrorCode, error_code_text,
  ServerMessage, ready, output, exit, error, pong, ParseResult, message, failure, find_code,
  error_code_of_text, parse_server_error_code, parse_typed, parse_known_message,
  parse_server_message_with_reason, ready_of, output_of, exit_of, error_of, natural_of,
}
use wootty.Protocol.ServerMessages

-- The code of an error that a field stands for: a known one, another text that is not empty, or
-- none, for what is no text or an empty one.
abbrev pub IsCodeOf : Value → Option ServerErrorCode → Option Text → Type 0
IsCodeOf v (some c) raw = (v ≡ string (error_code_text c)) × (raw ≡ none)
IsCodeOf v none (some raw) = (v ≡ string raw) × (raw ≢ []) × (error_code_of_text raw ≡ none)
IsCodeOf v none none = (t : Text) → v ≡ string t → t ≡ []

-- An object whose fields say a message of the contract.
abbrev pub Says : (Text → Value) → ServerMessage → Type 0
Says fields (ready id read_only version) =
    (fields (codes "type") ≡ string (codes "ready"))
    × (fields (codes "sessionId") ≡ string id)
    × (id ≢ [])
    × (fields (codes "readOnly") ≡ boolean read_only)
    × (fields (codes "version") ≡ number (whole version))
    × (version ≡ wire_contract_version)
Says fields (output data_) =
    (fields (codes "type") ≡ string (codes "output")) × (fields (codes "data") ≡ string data_)
Says fields (exit code signal) =
    (fields (codes "type") ≡ string (codes "exit"))
    × (fields (codes "code") ≡ number (whole code))
    × (fields (codes "signal") ≡ number (whole signal))
Says fields (error text code raw) =
    (fields (codes "type") ≡ string (codes "error"))
    × (fields (codes "message") ≡ string text)
    × IsCodeOf (fields (codes "code")) code raw
Says fields pong = fields (codes "type") ≡ string (codes "pong")

abbrev pub SaysResult : (Text → Value) → ParseResult → Type 0
SaysResult fields (message m) = Says fields m
SaysResult fields (failure f) = Unit

-- What the parser lets through is what some object says.
abbrev pub IsRead : Option Json → ParseResult → Type 0
IsRead (some (object fields)) r = SaysResult fields r
IsRead _ (message m) = ⊥
IsRead _ (failure f) = Unit

-- A session that is read has a name, and this client's version.
pub ready_read :
    (j : Option Json) (id : Text) (read_only : Bool) (version : ℕ)
    → IsRead j (message (ready id read_only version))
    → (id ≢ []) × (version ≡ wire_contract_version)
ready_read none id read_only version r = absurd r
ready_read (some ServerMessages.Json.no_object) id read_only version r = absurd r
ready_read (some (object fields)) id read_only version r = (r.2, r.5)

find_code_sound :
    (t : Text) (cs : List ServerErrorCode) (c : ServerErrorCode)
    → find_code t cs ≡ some c
    → t ≡ error_code_text c
unfolding find_code
find_code_sound t [] c h = cc
find_code_sound t (d ∷ ds) c h = elim (Bool-cases (text_eq (error_code_text d) t)) [
  | inl e ↦
      let found : some d ≡ some c = rw e at h in
      sym (text_eq_sound (error_code_text d) t e) ∙ ap error_code_text (cc found)
  | inr e ↦ find_code_sound t ds c (rw e at h)
]

error_code_of_text_sound :
    (t : Text) (c : ServerErrorCode) → error_code_of_text t ≡ some c → t ≡ error_code_text c
unfolding error_code_of_text
error_code_of_text_sound t c h = find_code_sound t ServerMessages.all_error_codes c h

parse_server_error_code-IsCodeOf :
    (v : Value) → let (known, raw) = parse_server_error_code v in IsCodeOf v known raw
unfolding parse_server_error_code
parse_server_error_code-IsCodeOf (string t) = elim (Option-cases (error_code_of_text t)) [
  | inl e ↦ rw e (raw_part t e)
  | inr (c, e) ↦ rw e (ap string (error_code_of_text_sound t c e), refl)
]
  where
    raw_part :
        (u : Text)
        → error_code_of_text u ≡ none
        → IsCodeOf (string u) none (ServerMessages.raw_or_none u)
    raw_part [] e = λ u h. cc h
    raw_part (c ∷ s) e = (refl, λ h. cc h, e)
parse_server_error_code-IsCodeOf (boolean b) = λ u h. cc h
parse_server_error_code-IsCodeOf (number n) = λ u h. cc h
parse_server_error_code-IsCodeOf undefined = λ u h. cc h
parse_server_error_code-IsCodeOf Value.null = λ u h. cc h
parse_server_error_code-IsCodeOf Value.nested = λ u h. cc h

module _ (fields : Text → Value) where
  ready-Says :
      (id mode version : Value)
      → fields (codes "type") ≡ string (codes "ready")
      → fields (codes "sessionId") ≡ id
      → fields (codes "readOnly") ≡ mode
      → fields (codes "version") ≡ version
      → SaysResult fields (ready_of id mode version)
  ready-Says id mode version t i m v = ground arith

  output-Says :
      (v : Value)
      → fields (codes "type") ≡ string (codes "output")
      → fields (codes "data") ≡ v
      → SaysResult fields (output_of v)
  output-Says v t d = ground arith

  exit-Says :
      (code signal : Value)
      → fields (codes "type") ≡ string (codes "exit")
      → fields (codes "code") ≡ code
      → fields (codes "signal") ≡ signal
      → SaysResult fields (exit_of (natural_of code) (natural_of signal))
  exit-Says code signal t c s = ground arith

  error-Says :
      (v code : Value)
      → fields (codes "type") ≡ string (codes "error")
      → fields (codes "message") ≡ v
      → fields (codes "code") ≡ code
      → SaysResult fields (error_of v code)
  error-Says (string text) code t m c =
      let (known, raw) = parse_server_error_code code in
      (t, m, subst (λ w. IsCodeOf w known raw) (sym c) (parse_server_error_code-IsCodeOf code))
  error-Says (boolean b) code t m c = tt
  error-Says (number n) code t m c = tt
  error-Says undefined code t m c = tt
  error-Says Value.null code t m c = tt
  error-Says Value.nested code t m c = tt

  if-Says :
      (type_ name : Text) (x y : ParseResult)
      → fields (codes "type") ≡ string type_
      → (fields (codes "type") ≡ string name → SaysResult fields x)
      → SaysResult fields y
      → SaysResult fields (if text_eq type_ name then x else y)
  if-Says type_ name x y e p q = elim (Bool-cases (text_eq type_ name)) [
    | inl same ↦ rw same (p (e ∙ ap string (text_eq_sound type_ name same)))
    | inr other ↦ rw other q
  ]

  parse_typed-Says :
      (type_ : Text)
      → fields (codes "type") ≡ string type_
      → SaysResult fields (parse_typed type_ fields)
  unfolding parse_typed
  parse_typed-Says t e =
      if-Says t (codes "ready") _ _ e (λ k. ready-Says _ _ _ k refl refl refl)
        (if-Says t (codes "output") _ _ e (λ k. output-Says _ k refl)
          (if-Says t (codes "exit") _ _ e (λ k. exit-Says _ _ k refl refl)
            (if-Says t (codes "error") _ _ e (λ k. error-Says _ _ k refl refl)
              (if-Says t (codes "pong") _ _ e (λ k. k) tt))))

  parse_known-Says : SaysResult fields (parse_known_message fields)
  unfolding parse_known_message
  parse_known-Says = go (fields (codes "type")) refl
    where
      go :
          (v : Value)
          → fields (codes "type") ≡ v
          → SaysResult fields (ServerMessages.parse_by_type v fields)
      go (string t) e = parse_typed-Says t e
      go (boolean b) e = tt
      go (number n) e = tt
      go undefined e = tt
      go Value.null e = tt
      go Value.nested e = tt

-- Whatever text arrives and whatever `JSON.parse` makes of it, a message that the parser lets
-- through is what the fields of an object say: their type names its kind, and each of its parts is
-- the value of its field. A session has a name, the version that the object has is the client's,
-- and an error has the known code that its field names, or another one that is not empty, or none
-- where the field is no text or empty.
pub parse-IsRead :
    (parse_json : Text → Option Json) (raw : Text)
    → IsRead (parse_json raw) (parse_server_message_with_reason parse_json raw)
unfolding parse_server_message_with_reason
parse-IsRead parse_json raw = go (parse_json raw)
  where
    go : (j : Option Json) → IsRead j (ServerMessages.parse_value j)
    go none = tt
    go (some ServerMessages.Json.no_object) = tt
    go (some (object fields)) = parse_known-Says fields
