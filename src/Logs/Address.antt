-- ===== src/Logs/Address.antt =====
-- The filters of web/src/pages/Logs.tsx and their copy in the address.
use mathlib.Core.Path.{subst}
use ddsds.Common.{
  sym, Bool, arith, not, ◌&&◌, eq_refl, eq_iff, Bool-cases, inl, inr, String, true, false, List, [],
  ◌∷◌, ◌++◌, Option, none, some, ◌≡◌, refl, ap, ◌∙◌, str_eq, if◌then◌else◌, ℕ,
}
use ddsds.Text.{truthy}
use ddsds.I18n.Template.{lookup}

-- The state of web/src/pages/Logs.tsx that is kept in the address.
pub record PageFilters : Type 0 where
  pub source : String
  pub search : String
  pub ip_filter : String
  pub event_type_filter : String
  pub from_date_time : String
  pub to_date_time : String

-- `if (v) next.set(key, v)`, of a key that is not set before.
abbrev pub entry : String → String → List (String × String)
entry key v = if truthy v then (key, v) ∷ [] else []

abbrev pub text_or : Option String → String
text_or none = ""
text_or (some v) = v

-- `searchParams.get(key) || ''`
abbrev pub get_text : String → List (String × String) → String
get_text key params = text_or (lookup key params)

-- `fromDateTime ? Math.floor(new Date(fromDateTime).getTime() / 1000) : null`, where `parse_local`
-- reads a date and time in the time zone of the browser.
abbrev pub page_timestamp : (String → ℕ) → String → Option ℕ
page_timestamp parse_local text = if truthy text then some (parse_local text) else none

-- The parameters that are set, one after the other.
unfoldable pub entries : List (String × String) → List (String × String)
entries [] = []
entries ((key, v) ∷ rest) = entry key v ++ entries rest

-- Each key of the address with the filter that it carries.
abbrev pub fields : PageFilters → List (String × String)
fields f =
    ("source", f.source)
    ∷ ("q", f.search)
    ∷ ("ip", f.ip_filter)
    ∷ ("event_type", f.event_type_filter)
    ∷ ("from", f.from_date_time)
    ∷ ("to", f.to_date_time)
    ∷ []

unfoldable pub write_address : PageFilters → List (String × String)
unfolding entries
write_address f = entries (fields f)

unfoldable pub read_address : List (String × String) → PageFilters
read_address params = record {
  source = get_text "source" params;
  search = get_text "q" params;
  ip_filter = get_text "ip" params;
  event_type_filter = get_text "event_type" params;
  from_date_time = get_text "from" params;
  to_date_time = get_text "to" params;
}

pub lookup_other :
    (key j v : String) (rest : List (String × String))
    → str_eq j key ≡ false
    → lookup key ((j, v) ∷ rest) ≡ lookup key rest
unfolding lookup
lookup_other key j v rest h = rw h refl

pub get_text-other :
    (key j v : String) (rest : List (String × String))
    → str_eq j key ≡ false
    → get_text key (entry j v ++ rest) ≡ get_text key rest
get_text-other key j String.[] rest h = refl
get_text-other key j (String.◌∷◌ c s) rest h =
    ap text_or (lookup_other key j (String.◌∷◌ c s) rest h)

-- No entry has the key.
unfoldable absent : String → List (String × String) → Bool
absent key [] = true
absent key ((j, v) ∷ rest) = not (str_eq j key) && absent key rest

-- No two entries have the same key.
unfoldable distinct : List (String × String) → Bool
unfolding absent
distinct [] = true
distinct ((key, v) ∷ rest) = absent key rest && distinct rest

get_text-absent :
    (key : String) (rest : List (String × String))
    → absent key rest ≡ true
    → get_text key (entries rest) ≡ ""
unfolding absent entries lookup
get_text-absent key [] h = refl
get_text-absent key ((j, v) ∷ rest) h =
    get_text-other key j v (entries rest) (ground arith) ∙ get_text-absent key rest (ground arith)

-- An entry that is empty is not set, and is read back as empty all the same.
get_text-entry :
    (key v : String) (rest : List (String × String))
    → get_text key rest ≡ ""
    → get_text key (entry key v ++ rest) ≡ v
unfolding lookup
get_text-entry key String.[] rest h = h
get_text-entry key (String.◌∷◌ c s) rest h = rw (eq_refl key) refl

first_entry :
    (key v : String) (rest : List (String × String))
    → distinct ((key, v) ∷ rest) ≡ true
    → get_text key (entry key v ++ entries rest) ≡ get_text key ((key, v) ∷ rest)
unfolding distinct lookup
first_entry key v rest h =
    get_text-entry key v (entries rest) (get_text-absent key rest (ground arith))
    ∙ sym (ap text_or (ap (λ b. if b then some v else lookup key rest) (eq_refl key)))

-- What is read under a key is the entry's text, also where an empty one is not set.
get_text-entries :
    (key : String) (params : List (String × String))
    → distinct params ≡ true
    → get_text key (entries params) ≡ get_text key params
unfolding distinct entries lookup
get_text-entries key [] h = refl
get_text-entries key ((j, v) ∷ rest) h = elim (Bool-cases (str_eq j key)) [
  | inl e ↦
      subst (λ k. get_text k (entry j v ++ entries rest) ≡ get_text k ((j, v) ∷ rest))
        ((eq_iff j key).0 e) (first_entry j v rest h)
  | inr e ↦
      get_text-other key j v (entries rest) e
      ∙ get_text-entries key rest (ground arith)
      ∙ sym (ap text_or (lookup_other key j v rest e))
]

-- Reading the address that the page has written gives the page's filters back.
pub read_address-write_address : (f : PageFilters) → read_address (write_address f) ≡ f
unfolding read_address write_address distinct absent lookup
read_address-write_address f =
    let kept : (key : String) → get_text key (write_address f) ≡ get_text key (fields f) =
      λ key. get_text-entries key (fields f) refl in
    λ i. record {
      source = kept "source" i;
      search = kept "q" i;
      ip_filter = kept "ip" i;
      event_type_filter = kept "event_type" i;
      from_date_time = kept "from" i;
      to_date_time = kept "to" i;
    }
