-- ===== src/Clients/KeyVault/Calls.antt =====
-- The calls for the options of a new key, as the calls for the members of a JSON object.
use azure_sdk_for_c.Base.{
  ◌≤◌, Bool, false, ne→==_false, Option, none, some, List, Bytes, [], ◌∷◌, ◌≡◌, refl, sym, ap, ◌∙◌,
  arith,
}
use azure_sdk_for_c.Base.Text.{ascii}
use azure_sdk_for_c.Clients.KeyVault.{
  CreateKeyOptions, is_null_span, append_operations, append_tags, append_enabled, append_key_ops,
  append_all_tags, with_builder,
}
use azure_sdk_for_c.Double.{Doubles}
use azure_sdk_for_c.Http.Request.{Pair}
use azure_sdk_for_c.Json.Builder.{
  Builder, az_json_builder_append_object, az_json_builder_append_array_item,
  az_json_builder_append_object_close, az_json_builder_append_array_close,
}
use azure_sdk_for_c.Json.Builder.Values.{
  Value, leaf, list, dict, Items, no_items, item, Members, no_members, member, append_value,
  append_items, append_members,
}
use azure_sdk_for_c.Json.Token.{string, boolean, object, array}
use azure_sdk_for_c.Result.{Run, Error, fail, done, ◌>>◌, return, >>=-known, >>-return}
use azure_sdk_for_c.Source.{at, literal}
use azure_sdk_for_c.Span.{Span, az_span_null}
use azure_sdk_for_c.Span.Read.{az_span_is_equal}
use azure_sdk_for_c.Span.Write.{Target}

-- Spans with their contents.
abbrev pub Texts : Type 0
Texts = List (Span × Bytes)

-- The array of the spans, with a null span at its end.
abbrev pub spans_of : Texts → List Span
spans_of [] = az_span_null ∷ []
spans_of ((s, bs) ∷ ts) = s ∷ spans_of ts

abbrev pub AllFilled : Texts → Type 0
AllFilled [] = Unit {0}
AllFilled ((s, bs) ∷ ts) = (1 ≤ s.len) × AllFilled ts

is_null_span-filled :
    (s : Span) (self : Builder) → 1 ≤ s.len → is_null_span s self ≡ done false self
unfolding is_null_span az_span_is_equal
is_null_span-filled s self filled =
    rw (ne→==_false s.len 0 (λ z. absurd (omega (arith, z, filled)))) refl

pub with_builder-done :
    (run : Run Builder (Unit {0})) (t : Target) (b : Builder)
    → run (record { json = t; need_comma = false }) ≡ done tt b
    → with_builder run t ≡ done tt b.json
with_builder-done run t b e = rw (e, with_builder) refl

pub with_builder-fail :
    (run : Run Builder (Unit {0})) (t : Target) (b : Builder) {error : Error}
    → run (record { json = t; need_comma = false }) ≡ fail error b
    → with_builder run t ≡ fail error (record { mem = b.json.mem; self = t.self })
with_builder-fail run t b e = rw (e, with_builder) refl

module _ (fp : Doubles) where
  abbrev pub items_of : Texts → Items fp.Double
  items_of [] = no_items
  items_of ((s, bs) ∷ ts) = item (leaf (string s) bs) (items_of ts)

  append_operations_lem :
      (ts : Texts)
      → AllFilled ts
      → append_operations fp (spans_of ts) ≡ append_items fp (items_of ts)
  unfolding append_operations is_null_span az_span_is_equal append_items append_value
  append_operations_lem [] h = refl
  append_operations_lem ((s, bs) ∷ ts) (h, hs) =
      >>=-known (is_null_span s) _ false (λ b. is_null_span-filled s b h)
      ∙ ap (λ run. az_json_builder_append_array_item fp (string s) >> run)
          (append_operations_lem ts hs)

-- The texts of a member: the key and the value.
abbrev pub Tags : Type 0
Tags = List ((Span × Bytes) × (Span × Bytes))

-- The array of the tags. The key of the last one is a null span.
abbrev pub tags_of : Tags → List Pair
tags_of [] = record { key = az_span_null; value = az_span_null } ∷ []
tags_of (((k, ks), (v, vs)) ∷ ts) = record { key = k; value = v } ∷ tags_of ts

abbrev pub AllNamed : Tags → Type 0
AllNamed [] = Unit {0}
AllNamed (((k, ks), (v, vs)) ∷ ts) = (1 ≤ k.len) × AllNamed ts

-- What a caller asks for, with the contents of the spans.
pub record KeyRequest : Type 0 where
  pub enabled : Option Bool
  pub operations : Option Texts
  pub tags : Option Tags

abbrev pub options_of : KeyRequest → CreateKeyOptions
options_of k = record {
  enabled = k.enabled;
  operations = elim k.operations [ none ↦ none | some ts ↦ some (spans_of ts) ];
  tags = elim k.tags [ none ↦ none | some ts ↦ some (tags_of ts) ];
}

abbrev pub AllSet : KeyRequest → Type 0
AllSet k =
    (elim k.operations as (λ _. Type 0) [ none ↦ Unit {0} | some ts ↦ AllFilled ts ])
    × (elim k.tags as (λ _. Type 0) [ none ↦ Unit {0} | some ts ↦ AllNamed ts ])

module _ (fp : Doubles) where
  abbrev pub members_of : Tags → Members fp.Double
  members_of [] = no_members
  members_of (((k, ks), (v, vs)) ∷ ts) = member (at k) ks (leaf (string v) vs) (members_of ts)

  abbrev pub enabled_members : Option Bool → Members fp.Double → Members fp.Double
  enabled_members none ms = ms
  enabled_members (some b) ms =
      member (literal (ascii "attributes")) (ascii "attributes")
        (dict
          (member (literal (ascii "enabled")) (ascii "enabled") (leaf (boolean b) []) no_members))
        ms

  abbrev pub ops_members : Option Texts → Members fp.Double → Members fp.Double
  ops_members none ms = ms
  ops_members (some ts) ms =
      member (literal (ascii "key_ops")) (ascii "key_ops") (list (items_of fp ts)) ms

  abbrev pub tags_members : Option Tags → Members fp.Double
  tags_members none = no_members
  tags_members (some ts) =
      member (literal (ascii "tags")) (ascii "tags") (dict (members_of ts)) no_members

  -- The value that a body is the text of.
  abbrev pub body_value : Span → Bytes → KeyRequest → Value fp.Double
  body_value kty ks k = dict (
      member (literal (ascii "kty")) (ascii "kty") (leaf (string kty) ks)
        (enabled_members k.enabled (ops_members k.operations (tags_members k.tags))))

  append_tags_lem :
      (ts : Tags) → AllNamed ts → append_tags fp (tags_of ts) ≡ append_members fp (members_of ts)
  unfolding append_tags is_null_span az_span_is_equal append_members append_value
  append_tags_lem [] h = refl
  append_tags_lem (((k, ks), (v, vs)) ∷ ts) (h, hs) =
      >>=-known (is_null_span k) _ false (λ b. is_null_span-filled k b h)
      ∙ ap (λ run. az_json_builder_append_object fp (at k) (string v) >> run)
          (append_tags_lem ts hs)

  pub enabled_lem :
      (e : Option Bool) (ms : Members fp.Double)
      → (append_enabled fp e >> append_members fp ms) ≡ append_members fp (enabled_members e ms)
  unfolding append_enabled append_members append_value
  enabled_lem none ms = refl
  enabled_lem (some b) ms =
      ap
        (λ run.
          (az_json_builder_append_object fp (literal (ascii "attributes")) object
            >> (run >> az_json_builder_append_object_close))
          >> append_members fp ms)
        (sym (>>-return (az_json_builder_append_object fp (literal (ascii "enabled")) (boolean b))))

  pub ops_lem :
      (o : Option Texts) (ms : Members fp.Double)
      → (elim o as (λ _. Type 0) [ none ↦ Unit {0} | some ts ↦ AllFilled ts ])
      → (append_key_ops fp (elim o [ none ↦ none | some ts ↦ some (spans_of ts) ])
          >> append_members fp ms)
        ≡ append_members fp (ops_members o ms)
  unfolding append_key_ops append_members append_value
  ops_lem none ms h = refl
  ops_lem (some ts) ms h =
      ap
        (λ run.
          (az_json_builder_append_object fp (literal (ascii "key_ops")) array
            >> (run >> az_json_builder_append_array_close))
          >> append_members fp ms)
        (append_operations_lem fp ts h)

  pub tags_lem :
      (o : Option Tags)
      → (elim o as (λ _. Type 0) [ none ↦ Unit {0} | some ts ↦ AllNamed ts ])
      → append_all_tags fp (elim o [ none ↦ none | some ts ↦ some (tags_of ts) ])
        ≡ append_members fp (tags_members o)
  unfolding append_all_tags append_members append_value
  tags_lem none h = refl
  tags_lem (some ts) h =
      sym (>>-return _)
      ∙ ap
          (λ run.
            (az_json_builder_append_object fp (literal (ascii "tags")) object
              >> (run >> az_json_builder_append_object_close))
            >> return tt)
          (append_tags_lem ts h)
