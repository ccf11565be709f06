-- ===== src/Frontend/Htmx.antt =====
-- The extension `postrangerequest` that code.js gives htmx: an event's headers and the parameters
-- of a request are objects of `Frontend.Merge`.
use tillerinobot.Prelude.{
  ◌≡◌, refl, Bool-cases, inl, inr, Option, some, String, if◌then◌else◌, str_eq,
}
use tillerinobot.Frontend.Merge.{Value, str, Fields, lookup, insert}
use tillerinobot.Frontend.Merge.Laws.{lookup-insert}

abbrev configured : String
configured = "htmx:configRequest"

-- `onEvent`, on `evt.detail.headers`.
pub on_event : String → Fields → Fields
on_event name headers =
    if str_eq name configured
    then insert "Content-Type" (str "application/json") headers
    else headers

-- `encodeParameters`; `none` is undefined.
pub encode_parameters : Fields → Option Value
encode_parameters parameters = lookup "json" parameters

-- The event before a request sets its content type, and nothing sets another header.
on_event_lem :
    (name header : String) (headers : Fields)
    → lookup header (on_event name headers) ≡ (
        if str_eq name configured
        then (if str_eq "Content-Type" header
            then some (str "application/json")
            else lookup header headers)
        else lookup header headers)
unfolding on_event
on_event_lem name header headers = elim (Bool-cases (str_eq name configured)) [
  | inl same ↦ rw same (lookup-insert "Content-Type" header (str "application/json") headers)
  | inr other ↦ rw other refl
]
