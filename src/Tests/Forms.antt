-- ===== src/Tests/Forms.antt =====
-- The theorems on forms and paths, at a form of three fields.
use securitygingercia.Form.StringList.{list_items-join_comma}
use securitygingercia.Schema.PathLaws.{
  set_path-eq-set_parts, set_parts, get_path-set_path_ne, get_path-set_path_self,
}
use securitygingercia.Form.Operators.{operators-set_operators}
use securitygingercia.Form.Keeping.{on_key-IsWellFormed, StaysWellFormed}
use securitygingercia.Schema.Path.{set_path_fuel, get_parts, set_path, get_path}
use securitygingercia.Form.{
  value_to_display_string, list_items, written, operators, field_edit_state_from, on_key,
  write_fields, to_value, set_operators, operator_list_index, new,
}
use securitygingercia.Schema.Types.{types_for}
use securitygingercia.Form.Reading.{to_value-ReadsBack, type_value, to_value-drops, ReadsBack}
use securitygingercia.Form.Resubmit.{to_value-new}
use securitygingercia.Schema.Spec.{exporter}
use securitygingercia.Form.Registered.{
  apart_sound, IsSound, is_sound, fields-IsSound, types_for-IsSound,
}
use securitygingercia.Json.{insert, get, get_key, Value}
use securitygingercia.Prelude.{
  split_once, trim, trim_start, trim_end, true, none, some, [], ◌∷◌, ◌≡◌, refl, ret, arith, split,
  join_comma, Returns, All,
}
use securitygingercia.Keys.{KeyCode}
use securitygingercia.Tests.Data.{text_kit, text_kit-faithful, press, fields, form, submitted, doc}
use securitygingercia.Form.Safety.{IsWellFormed}

three-IsSound : IsSound fields
unfolding is_sound split
three-IsSound = fields-IsSound fields refl

form-IsWellFormed : IsWellFormed form
form-IsWellFormed = record { fit = (tt, ((refl, omega arith), (tt, tt))); focus = omega arith }

form-submitted : to_value text_kit form ≡ ret submitted
unfolding to_value write_fields written set_path set_path_fuel split_once insert get
form-submitted = refl

to_value-ReadsBack_example :
    ReadsBack text_kit form.fields_spec form.fields submitted
    × (get_path submitted "type" ≡ type_value true (some "syslog"))
to_value-ReadsBack_example =
    to_value-ReadsBack text_kit form submitted three-IsSound.apart three-IsSound.type_apart
      form-submitted

to_value-drops_example : get_path submitted "udp.encoding" ≡ none
unfolding split
to_value-drops_example =
    to_value-drops text_kit form submitted "udp.encoding"
      (
        apart_sound "udp.listen_address" "udp.encoding" refl,
        (
          apart_sound "protocol" "udp.encoding" refl,
          (apart_sound "operators" "udp.encoding" refl, tt),
        ),
      )
      (apart_sound "type" "udp.encoding" refl) form-submitted

on_key-IsWellFormed_example :
    Returns (StaysWellFormed text_kit form) (on_key text_kit (press KeyCode.right) form)
on_key-IsWellFormed_example =
    on_key-IsWellFormed text_kit (press KeyCode.right) form form-IsWellFormed

form-opened : new text_kit (some "syslog") true fields submitted ≡ ret (record form { focused = 0 })
unfolding new field_edit_state_from get_path get_parts split get get_key value_to_display_string
form-opened = refl

to_value-new_example : get_path submitted "protocol" ≡ some (Value.string "rfc5424")
unfolding get_path get_parts split get get_key to_value write_fields written set_path set_path_fuel
    split_once insert
to_value-new_example =
    to_value-new text_kit text_kit-faithful (some "syslog") true fields submitted submitted
      (Value.string "rfc5424") (record form { focused = 0 }) 1 _ three-IsSound.apart
      three-IsSound.type_apart form-opened refl refl refl ("rfc5424", refl, refl)

operators-set_operators_example : operators (set_operators (Value.null ∷ []) form) ≡ Value.null ∷ []
unfolding operator_list_index
operators-set_operators_example =
    operators-set_operators (Value.null ∷ []) form 2 form-IsWellFormed refl

list_items-join_comma_example : list_items (join_comma ("a" ∷ "b/c" ∷ [])) ≡ "a" ∷ "b/c" ∷ []
unfolding trim trim_start trim_end
list_items-join_comma_example =
    list_items-join_comma ("a" ∷ "b/c" ∷ [])
      (((refl, tt), refl, refl), (((refl, (refl, (refl, tt))), refl, refl), tt))

types_for-IsSound_example : All (λ s. IsSound s.fields) (types_for exporter)
types_for-IsSound_example = types_for-IsSound exporter

set_path-eq-set_parts_example :
    set_path doc.receivers "tcp.tls.ca_file" Value.null
    ≡ set_parts (split b'.' "tcp.tls.ca_file") doc.receivers Value.null
set_path-eq-set_parts_example = set_path-eq-set_parts doc.receivers "tcp.tls.ca_file" Value.null

get_path-set_path_self_example :
    get_path (Value.object (set_path doc.receivers "syslog/udp.udp" Value.null)) "syslog/udp.udp"
    ≡ some Value.null
get_path-set_path_self_example = get_path-set_path_self doc.receivers "syslog/udp.udp" Value.null

get_path-set_path_ne_example :
    get_path (Value.object (set_path doc.receivers "a.b" Value.null)) "a.c"
    ≡ get_path (Value.object doc.receivers) "a.c"
unfolding split
get_path-set_path_ne_example =
    get_path-set_path_ne doc.receivers "a.b" "a.c" Value.null (apart_sound "a.b" "a.c" refl)
