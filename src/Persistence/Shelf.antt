-- ===== src/Persistence/Shelf.antt =====
-- A storage that works: a list of what was set, the latest first.
use wootty.Base.{
  ℕ, zero, suc, ◌≡◌, refl, ap, ◌∙◌, List, [], ◌∷◌, map, Option, none, some, Text, text_eq,
  text_eq_refl, if◌then◌else◌, keep, not, sym, Bool-cases, inl, inr,
}
use wootty.Persistence.{HistoryValue, array, Tried, threw, returned, StorageApi}
use wootty.Persistence.Laws.{IsLawful}

abbrev pub Shelf : Type 0
Shelf = List (Text × Text)

abbrev pub look_up : Text → Shelf → Option Text
look_up key [] = none
look_up key ((k, v) ∷ shelf) =
    let rest = look_up key shelf in if text_eq k key then some v else rest

-- A text of a list of texts: the code units raised by one, with a 0 after each text.
abbrev pub encode_text : Text → Text → Text
encode_text [] rest = 0 ∷ rest
encode_text (c ∷ t) rest = suc c ∷ encode_text t rest

abbrev pub encode_texts : List Text → Text
encode_texts [] = []
encode_texts (t ∷ ts) = encode_text t (encode_texts ts)

abbrev pub push_unit : ℕ → List Text → List Text
push_unit c [] = (c ∷ []) ∷ []
push_unit c (t ∷ ts) = (c ∷ t) ∷ ts

abbrev pub decode_texts : Text → List Text
decode_texts [] = []
decode_texts (zero ∷ raw) = [] ∷ decode_texts raw
decode_texts (suc c ∷ raw) = push_unit c (decode_texts raw)

decode-encode_text : (t rest : Text) → decode_texts (encode_text t rest) ≡ t ∷ decode_texts rest
decode-encode_text [] rest = refl
decode-encode_text (c ∷ t) rest = ap (push_unit c) (decode-encode_text t rest)

decode-encode_texts : (ts : List Text) → decode_texts (encode_texts ts) ≡ ts
decode-encode_texts [] = refl
decode-encode_texts (t ∷ ts) =
    decode-encode_text t (encode_texts ts) ∙ ap (λ x. t ∷ x) (decode-encode_texts ts)

abbrev pub parse_texts : Text → Tried HistoryValue
parse_texts [] = threw
parse_texts (c ∷ raw) = returned (array (map some (decode_texts raw)))

abbrev pub shelf_api : StorageApi Shelf
shelf_api = record {
  get_item = λ key shelf. returned (look_up key shelf);
  set_item = λ key value shelf. returned ((key, value) ∷ shelf);
  remove_item = λ key shelf. returned (keep (λ (p : Text × Text). not (text_eq p.0 key)) shelf);
  json_parse = parse_texts;
  json_stringify = λ ids. 91 ∷ encode_texts ids;
}

returned_inv : {A : Type 0} (a b : A) → returned a ≡ returned b → a ≡ b
returned_inv a b e = cc e

pub shelf-IsLawful : IsLawful shelf_api
shelf-IsLawful = record {
  found = λ key value st st' e.
      ap (λ s. returned (look_up key s)) (returned_inv st' ((key, value) ∷ st) (sym e))
      ∙ rw (text_eq_refl key) refl;
  others_kept = λ key other value st st' d e.
      ap (λ s. returned (look_up other s)) (returned_inv st' ((key, value) ∷ st) (sym e))
      ∙ rw d refl;
  parsed_back = λ ids. ap (λ ts. returned (array (map some ts))) (decode-encode_texts ids);
  no_empty_json = λ ids e. cc e;
}

look_up-removed :
    (key : Text) (shelf : Shelf)
    → look_up key (keep (λ (p : Text × Text). not (text_eq p.0 key)) shelf) ≡ none
look_up-removed key [] = refl
look_up-removed key ((k, v) ∷ shelf) = elim (Bool-cases (text_eq k key)) [
  | inl same ↦ rw same (look_up-removed key shelf)
  | inr other ↦ rw (other, other) (look_up-removed key shelf)
]

pub shelf_removed :
    (key : Text) (st st' : Shelf)
    → shelf_api.remove_item key st ≡ returned st'
    → shelf_api.get_item key st' ≡ returned none
shelf_removed key st st' e =
    ap (λ s. returned (look_up key s))
      (returned_inv st' (keep (λ (p : Text × Text). not (text_eq p.0 key)) st) (sym e))
    ∙ ap returned (look_up-removed key st)
