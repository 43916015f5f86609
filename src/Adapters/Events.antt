-- ===== src/Adapters/Events.antt =====
-- Events of the browser in the transport's words
-- (apps/web/src/features/terminal/adapters/transport-event-normalizer.ts). The order of
-- `localeCompare` is a parameter.
use wootty.Base.{
  Bool, true, false, List, [], ◌∷◌, ◌++◌, Option, none, some, Text, codes, join, Number, whole,
  not_finite, if◌then◌else◌,
}

-- A field, as far as the source tells values apart.
pub data FieldValue : Type 0 where
  -- `undefined`, or no such field
  absent : FieldValue
  text : Text → FieldValue
  number : Number → FieldValue
  other : FieldValue

-- What `instanceof` finds.
pub data EventClass : Type 0 where
  message_event close_event error_event js_error plain : EventClass

pub record EventObject : Type 0 where
  pub class : EventClass
  pub field : Text → FieldValue
  -- `Object.keys`
  pub keys : List Text
  -- `"cause" in event`
  pub has_cause : Bool

pub data RawEvent : Type 0 where
  object : EventObject → RawEvent
  -- `undefined`, and any other value that is no object, or null, with its `typeof`
  undefined : RawEvent
  primitive : Text → RawEvent

pub record MessageEvent : Type 0 where
  pub data_ : Text
  pub malformed : Option Text

pub record CloseEvent : Type 0 where
  pub code : FieldValue
  pub reason : FieldValue

pub data FailureCode : Type 0 where
  text_code : Text → FailureCode
  number_code : Number → FailureCode

-- The cause of an error: the event, or its own cause.
pub data ErrorCause : Type 0 where
  event : RawEvent → ErrorCause
  of_event : FieldValue → ErrorCause

pub record ErrorEvent : Type 0 where
  pub message : Text
  pub code : Option FailureCode
  pub cause : Option ErrorCause

abbrev read_text : FieldValue → Text
read_text (text s) = s
read_text _ = []

unfoldable pub read_string_field : EventObject → Text → Text
read_string_field o key = read_text (o.field key)

abbrev finite_code : Number → Option FailureCode
finite_code not_finite = none
finite_code n = some (number_code n)

abbrev code_of : FieldValue → Option FailureCode
code_of (text (c ∷ s)) = some (text_code (c ∷ s))
code_of (number n) = finite_code n
code_of _ = none

unfoldable pub read_error_code : RawEvent → Option FailureCode
read_error_code (object o) = code_of (o.field (codes "code"))
read_error_code _ = none

abbrev close_code : FieldValue → FieldValue
close_code (number not_finite) = number (whole 1006)
close_code (number n) = number n
close_code _ = number (whole 1006)

unfoldable pub close_fields : EventClass → EventObject → CloseEvent
unfolding read_string_field
close_fields close_event o = record {
  code = o.field (codes "code");
  reason = o.field (codes "reason");
}
close_fields _ o = record {
  code = close_code (o.field (codes "code"));
  reason = text (read_string_field o (codes "reason"));
}

unfoldable pub normalize_transport_close_event : RawEvent → CloseEvent
unfolding close_fields
normalize_transport_close_event (object o) = close_fields o.class o
normalize_transport_close_event _ = record { code = number (whole 1006); reason = text [] }

module _ (sort_keys : List Text → List Text) where
  shape_of : List Text → Text
  shape_of [] = codes "empty object"
  shape_of (k ∷ ks) = join (codes ",") (sort_keys (k ∷ ks))

  unfoldable pub summarize_shape : RawEvent → Text
  unfolding shape_of
  summarize_shape (object o) = shape_of o.keys
  summarize_shape undefined = codes "undefined"
  summarize_shape (primitive kind) = kind

  abbrev malformed_message : RawEvent → MessageEvent
  malformed_message e = record { data_ = []; malformed = some (summarize_shape e) }

  abbrev some_data : RawEvent → Text → MessageEvent
  some_data e [] = malformed_message e
  some_data e (c ∷ s) = record { data_ = c ∷ s; malformed = none }

  -- A `MessageEvent` with text is taken as it is, an empty one too.
  message_data : EventClass → FieldValue → EventObject → MessageEvent
  unfolding read_string_field
  message_data message_event (text s) o = record { data_ = s; malformed = none }
  message_data class value o = some_data (object o) (read_string_field o (codes "data"))

  unfoldable pub normalize_transport_message_event : RawEvent → MessageEvent
  unfolding message_data summarize_shape
  normalize_transport_message_event (object o) = message_data o.class (o.field (codes "data")) o
  normalize_transport_message_event e = malformed_message e

  abbrev with_shape : Text → RawEvent → Text
  with_shape fallback e = fallback ++ codes " (" ++ summarize_shape e ++ codes ")"

  -- The message of the event, or the fallback with the event's shape.
  message_or_shape : Text → RawEvent → Text → Text
  message_or_shape fallback e [] = with_shape fallback e
  message_or_shape fallback e (c ∷ s) = c ∷ s

  -- An `ErrorEvent` or an `Error` with a message is its own cause.
  abbrev is_thrown : EventClass → Text → Bool
  is_thrown error_event (c ∷ s) = true
  is_thrown js_error (c ∷ s) = true
  is_thrown _ _ = false

  abbrev own_cause : Bool → FieldValue → EventObject → Option ErrorCause
  own_cause false value o = some (event (object o))
  own_cause true absent o = none
  own_cause true value o = some (of_event value)

  unfoldable pub normalize_transport_error_event : Text → RawEvent → ErrorEvent
  unfolding message_or_shape read_string_field read_error_code
  normalize_transport_error_event fallback (object o) =
      let message = read_string_field o (codes "message") in
      let thrown = is_thrown o.class message in
      record {
        message = message_or_shape fallback (object o) message;
        code = read_error_code (object o);
        cause =
            if thrown
            then some (event (object o))
            else own_cause o.has_cause (o.field (codes "cause")) o;
      }
  normalize_transport_error_event fallback undefined = record {
    message = with_shape fallback undefined;
    code = none;
    cause = none;
  }
  normalize_transport_error_event fallback (primitive kind) = record {
    message = with_shape fallback (primitive kind);
    code = none;
    cause = some (event (primitive kind));
  }
