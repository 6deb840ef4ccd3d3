-- ===== src/Settings/Pulses/Counts.antt =====
-- Pulse counts that do not repeat: each entry of a mapping is found by its own count.
use coin_acceptor_backend.Prelude.{
  ℕ, ◌≤◌, Bool, true, not, some, List, [], ◌∷◌, ◌==◌, ==_refl, find, filter, length, ◌≡◌, refl, ap,
  ◌∙◌, All, arith, length-filter-le,
}
use coin_acceptor_backend.Settings.Pulses.{Entry, distinct, counts}

filter_full :
    (p : ℕ → Bool) (ns : List ℕ) → length (filter p ns) ≡ length ns → All (λ n. p n ≡ true) ns
filter_full p [] e = tt
filter_full p (n ∷ ns) e = ground (arith, filter_full p ns, length-filter-le p ns)

filter_same : (p : ℕ → Bool) (ns : List ℕ) → length (filter p ns) ≡ length ns → filter p ns ≡ ns
filter_same p [] e = refl
filter_same p (n ∷ ns) e = ground (arith, filter_same p ns, length-filter-le p ns)

length-distinct : (ns : List ℕ) → length (distinct ns) ≤ length ns
unfolding distinct
length-distinct [] = omega arith
length-distinct (n ∷ ns) =
    omega (arith, length-filter-le (λ m. not (m == n)) (distinct ns), length-distinct ns)

distinct_full : (ns : List ℕ) → length (distinct ns) ≡ length ns → distinct ns ≡ ns
unfolding distinct
distinct_full [] e = refl
distinct_full (n ∷ ns) e =
    let rest : distinct ns ≡ ns =
      distinct_full ns
        (omega (arith, length-filter-le (λ m. not (m == n)) (distinct ns), length-distinct ns)) in
    ap (λ ms. n ∷ ms) (rw rest (filter_same (λ m. not (m == n)) ns (rw rest at e')))
  where
    e' : length (filter (λ m. not (m == n)) (distinct ns)) ≡ length ns
    e' = omega arith

length-counts : (es : List Entry) → length (counts es) ≡ length es
length-counts [] = refl
length-counts (e ∷ es) = omega (arith, length-counts es)

All-counts {κ} :
    (P : ℕ → Type κ) (es : List Entry) → All P (counts es) → All (λ e. P e.pulse_count) es
All-counts P [] a = tt
All-counts P (e ∷ es) (p, a) = (p, All-counts P es a)

-- Where no count occurs twice, each entry is found by its own.
abbrev pub Found : List Entry → List Entry → Type 0
Found all es = All (λ e. find (λ x. x.pulse_count == e.pulse_count) all ≡ some e) es

Found-below :
    (x : Entry) (all es : List Entry)
    → All (λ e. not (e.pulse_count == x.pulse_count) ≡ true) es
    → Found all es
    → Found (x ∷ all) es
Found-below x all [] n f = tt
Found-below x all (e ∷ es) (n, ns) (f, fs) = (ground arith, Found-below x all es ns fs)

pub counts-Found : (es : List Entry) → length (distinct (counts es)) ≡ length es → Found es es
unfolding distinct
counts-Found [] e = tt
counts-Found (x ∷ es) e = (
  rw (==_refl x.pulse_count) refl,
  Found-below x es es apart (counts-Found es (ap length rest ∙ length-counts es)),
)
  where
    ns : List ℕ
    ns = counts es

    differs : ℕ → Bool
    differs m = not (m == x.pulse_count)

    full : length (filter differs (distinct ns)) ≡ length ns
    full = omega (arith, length-counts es)

    rest : distinct ns ≡ ns
    rest =
        distinct_full ns
          (omega (arith, full, length-filter-le differs (distinct ns), length-distinct ns))

    apart : All (λ e. not (e.pulse_count == x.pulse_count) ≡ true) es
    apart = All-counts (λ m. differs m ≡ true) es (filter_full differs ns (rw rest at full))
