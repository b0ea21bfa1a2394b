-- ===== src/Api/V2/Routers/Sorted.antt =====
-- api/v2/streamrouter_ports.go: the ports that the stream router listens on.
use lainlet.Base.{
  ℕ, ◌+◌, ◌≤◌, ◌≡◌, refl, sym, ap, ◌∙◌, true, none, some, List, [], ◌∷◌, ◌++◌, map, append_assoc,
  append-nil, arith, if◌then◌else◌, Text, ◌==◌, nat_eq, text_eq, is_some, ok, Returns, All,
}
use lainlet.Spec.{PodGroup}
use lainlet.Watcher.Cacher.{Data}
use lainlet.Api.V2.Common.{for_items}
use lainlet.Api.V2.Routers.{Port, insert_by, sort_by, ports_data}

-- How often a number occurs.
abbrev pub count_of : ℕ → List ℕ → ℕ
count_of n [] = 0
count_of n (x ∷ xs) = (if x == n then 1 else 0) + count_of n xs

-- Each number is at most the next one.
abbrev pub IsSorted : List ℕ → Type 0
IsSorted [] = Unit
IsSorted (x ∷ xs) = All (λ y. x ≤ y) xs × IsSorted xs

-- The source ports that the annotations of the data name.
abbrev pub srcports : (Text → List Port) → Data PodGroup → List ℕ
srcports ports_of [] = []
srcports ports_of ((k, none) ∷ m) = srcports ports_of m
srcports ports_of ((k, some pg) ∷ m) =
    map (λ p. p.srcport) (ports_of pg.spec.pod.annotation) ++ srcports ports_of m

insert_by-count_of :
    (n x : ℕ) (xs : List ℕ) → count_of n (insert_by (λ p. p) x xs) ≡ count_of n (x ∷ xs)
unfolding insert_by
insert_by-count_of n x [] = refl
insert_by-count_of n x (y ∷ ys) = ground (arith, insert_by-count_of n x ys)

sort_by-count_of : (n : ℕ) (xs : List ℕ) → count_of n (sort_by (λ p. p) xs) ≡ count_of n xs
unfolding sort_by
sort_by-count_of n [] = refl
sort_by-count_of n (x ∷ xs) =
    ground (arith, insert_by-count_of n x (sort_by (λ p. p) xs), sort_by-count_of n xs)

All-le_trans : (x y : ℕ) (xs : List ℕ) → x ≤ y → All (λ z. y ≤ z) xs → All (λ z. x ≤ z) xs
All-le_trans x y [] h k = ground arith
All-le_trans x y (z ∷ xs) h (k, ks) = (omega arith, All-le_trans x y xs h ks)

insert_by-All :
    (x y : ℕ) (xs : List ℕ)
    → x ≤ y
    → All (λ z. x ≤ z) xs
    → All (λ z. x ≤ z) (insert_by (λ p. p) y xs)
unfolding insert_by
insert_by-All x y [] h k = ground arith
insert_by-All x y (z ∷ xs) h (k, ks) = ground (arith, insert_by-All x y xs h ks)

insert_by-IsSorted : (x : ℕ) (xs : List ℕ) → IsSorted xs → IsSorted (insert_by (λ p. p) x xs)
unfolding insert_by
insert_by-IsSorted x [] h = ground arith
insert_by-IsSorted x (y ∷ ys) (h, hs) =
    ground (arith, insert_by-IsSorted x ys hs, All-le_trans x y ys, insert_by-All y x ys)

sort_by-IsSorted : (xs : List ℕ) → IsSorted (sort_by (λ p. p) xs)
unfolding sort_by
sort_by-IsSorted [] = ground arith
sort_by-IsSorted (x ∷ xs) = insert_by-IsSorted x (sort_by (λ p. p) xs) (sort_by-IsSorted xs)

count_of-append : (n : ℕ) (xs ys : List ℕ) → count_of n (xs ++ ys) ≡ count_of n xs + count_of n ys
count_of-append n [] ys = omega arith
count_of-append n (x ∷ xs) ys = omega (arith, count_of-append n xs ys)

for_items_ports :
    (ports_of : Text → List Port) (items : Data PodGroup) (ret : List ℕ)
    → All (λ (k, v). is_some v ≡ true) items
    → for_items
        (λ _ pg ret. ok (ret ++ map (λ p. p.srcport) (ports_of pg.spec.pod.annotation)))
        items
        ret
      ≡ ok (ret ++ srcports ports_of items)
unfolding for_items
for_items_ports ports_of [] ret h = ap ok (sym (append-nil ret))
for_items_ports ports_of ((k, none) ∷ items) ret (h, hs) = cc
for_items_ports ports_of ((k, some pg) ∷ items) ret (h, hs) =
    let here = map (λ p. p.srcport) (ports_of pg.spec.pod.annotation) in
    for_items_ports ports_of items (ret ++ here) hs
    ∙ ap ok (append_assoc ret here (srcports ports_of items))

-- Without nil among the data, /v2/streamrouter/ports lists the source ports of all annotations, each
-- as often as they name it, in ascending order.
pub ports_data_lem :
    (ports_of : Text → List Port) (items : Data PodGroup)
    → All (λ (k, v). is_some v ≡ true) items
    → Returns (ports_data ports_of items) (λ ports.
      IsSorted ports × ((n : ℕ) → count_of n ports ≡ count_of n (srcports ports_of items)))
unfolding ports_data
ports_data_lem ports_of items h = rw (for_items_ports ports_of items [] h) (
  sort_by-IsSorted (srcports ports_of items),
  (λ n. sort_by-count_of n (srcports ports_of items)),
)
