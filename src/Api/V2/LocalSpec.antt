-- ===== src/Api/V2/LocalSpec.antt =====
-- api/v2/localspec.go: the answer of /v2/localspecquery.
use lainlet.Base.{
  ◌≡◌, refl, ap, Bool, true, false, not, ◌||◌, Option, none, some, List, [], ◌∷◌, ◌++◌, arith,
  if◌then◌else◌, Text, Eq, ◌==◌, nat_eq, text_eq, Text-discrete, is_some, Result, ok, panic, ◌>>=◌,
  Returns, any, contains, ℕ_discrete, ℕ, length, keep, ltb,
}
use mathlib.Core.Bool.{or_assoc}
use lainlet.Watcher.Cacher.{Data}
use lainlet.Watcher.Container.{Info}
use lainlet.Api.V2.Common.{for_items}

-- fmt.Sprintf("%s/%s", ci.AppName, ci.ProcName)
unfoldable pub spec_path : Info → Text
spec_path ci = ci.app_name ++ b'/' ∷ ci.proc_name

-- set[s] = true
unfoldable pub add_to_set : Text → List Text → List Text
add_to_set s set = if contains s set then set else s ∷ set

-- LocalSpec.Make; the answer lists the set in the order of the range.
unfoldable pub localspec_data : Data Info → Result (List Text)
localspec_data items = for_items (λ _ ci set. ok (add_to_set (spec_path ci) set)) items []

unfoldable pub texts-discrete : Discrete (List Text)
unfolding ℕ_discrete
texts-discrete = hlevel ℕ_discrete

instance abbrev pub texts_eq : Eq (List Text)
texts_eq = record { dec = texts-discrete }

unfoldable pub localspec_make : Option (List Text) → Data Info → Result (List Text × Bool)
unfolding localspec_data
localspec_make old items = do
  new ← localspec_data items
  ok (new, not (elim old [ none ↦ false | some l ↦ new == l ]))

-- Whether a value of the data is a container whose application and process make this text.
abbrev pub is_at : Text → Option Info → Bool
is_at s none = false
is_at s (some ci) = (ci.app_name ++ b'/' ∷ ci.proc_name) == s

abbrev pub values : {V : Type 0} → Data V → List (Option V)
values [] = []
values ((k, v) ∷ m) = v ∷ values m

-- How often a text stands in a list.
abbrev pub times : Text → List Text → ℕ
times s set = length (keep (λ t. t == s) set)

-- A text stands in the list once if some test holds, and not at all otherwise.
abbrev pub IsOnce : Text → Bool → List Text → Type 0
IsOnce s there set = times s set ≡ (if there then 1 else 0)

times-contains : (s : Text) (set : List Text) → contains s set ≡ ltb 0 (times s set)
times-contains s [] = ground arith
times-contains s (t ∷ set) = elim (Text-discrete t s) [
  | yes e ↦ ground (arith, times-contains s set)
  | no e ↦ ground (arith, times-contains s set)
]

add_to_set-IsOnce :
    (s t : Text) (set : List Text) (there : Bool)
    → IsOnce s there set
    → IsOnce s (there || t == s) (add_to_set t set)
unfolding add_to_set
add_to_set-IsOnce s t set there h = elim (Text-discrete t s) [
  | yes e ↦ ground (arith, times-contains s set, times-contains t set)
  | no e ↦ ground arith
]

for_items_set :
    (items : Data Info) (set : List Text) (s : Text) (there : Bool)
    → IsOnce s there set
    → any (λ v. not (is_some v)) (values items) ≡ false
    → Returns
        (for_items (λ _ ci set. ok (add_to_set (spec_path ci) set)) items set)
        (IsOnce s (there || any (is_at s) (values items)))
unfolding for_items spec_path
for_items_set [] set s there once h = ground arith
for_items_set ((k, none) ∷ items) set s there once h = ground arith
for_items_set ((k, some ci) ∷ items) set s there once h =
    let here : Bool = (ci.app_name ++ b'/' ∷ ci.proc_name) == s in
    let t =
      for_items_set items (add_to_set (spec_path ci) set) s (there || here)
        (add_to_set-IsOnce s (spec_path ci) set there once) h in
    rw⁻¹ (or_assoc there here (any (is_at s) (values items))) t

-- As long as no container of the data is nil, /v2/localspecquery lists the name and the process of an
-- application with a slash between them, once if a container of the data is of that process of that
-- application, however many there are, and not at all otherwise.
pub localspec_data_lem :
    (items : Data Info) (s : Text)
    → any (λ v. not (is_some v)) (values items) ≡ false
    → Returns (localspec_data items) (IsOnce s (any (is_at s) (values items)))
unfolding localspec_data
localspec_data_lem items s h = for_items_set items [] s false refl h

for_items_panics :
    (items : Data Info) (set : List Text)
    → any (λ v. not (is_some v)) (values items) ≡ true
    → for_items (λ _ ci set. ok (add_to_set (spec_path ci) set)) items set ≡ panic
unfolding for_items
for_items_panics [] set h = cc
for_items_panics ((k, none) ∷ items) set h = refl
for_items_panics ((k, some ci) ∷ items) set h =
    for_items_panics items (add_to_set (spec_path ci) set) h

-- A nil container among the data makes `Make` of /v2/localspecquery panic, whatever else is there.
pub localspec_make_panics :
    (old : Option (List Text)) (items : Data Info)
    → any (λ v. not (is_some v)) (values items) ≡ true
    → localspec_make old items ≡ panic
unfolding localspec_make
localspec_make_panics old items h =
    ap (λ m. m >>= λ new. ok (new, not (elim old [ none ↦ false | some l ↦ new == l ])))
      (for_items_panics items [] h)
