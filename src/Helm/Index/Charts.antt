-- ===== src/Helm/Index/Charts.antt =====
-- The charts that `ParseRepository` makes of the entries of an index.
use cluster_api_provider_vcl.Base.{
  ◌≡◌, refl, ap, String, Bool, true, false, Option, none, some, List, [], ◌∷◌, map, arith, inl, inr,
  ◌⊎◌,
}
use cluster_api_provider_vcl.Base.Lists.{exists}
use cluster_api_provider_vcl.Helm.Metadata.{Metadata, Chart}
use cluster_api_provider_vcl.Helm.Index.{
  Definition, versions_of, chart_of, add_versions, add_chart, build_charts,
}

abbrev pub is_nil : Option Metadata → Bool
is_nil none = true
is_nil (some m) = false

abbrev pub pointers : List (String × List Metadata) → List (String × List (Option Metadata))
pointers = map λ e. (e.0, map some e.1)

abbrev pub has_nil : List (String × List (Option Metadata)) → Bool
has_nil = exists λ e. exists is_nil e.1

-- One chart for each entry that is not empty: its first metadata, with the versions of all.
abbrev pub charts_of : Definition → List (String × List Metadata) → List Chart
charts_of d [] = []
charts_of d ((key, []) ∷ es) = charts_of d es
charts_of d ((key, m ∷ ms) ∷ es) =
    chart_of d m (m.version ∷ map (λ (x : Metadata). x.version) ms) ∷ charts_of d es

-- What becomes of pointers: one of them is nil, or they are pointers to values.
abbrev ReadsOrPanics : List (Option Metadata) → Type 0
ReadsOrPanics l =
    ((exists is_nil l ≡ true) × (versions_of l ≡ none))
    ⊎ ((ms : List Metadata) × (l ≡ map some ms)
        × (versions_of l ≡ some (map (λ (x : Metadata). x.version) ms)))

versions_of-ReadsOrPanics : (l : List (Option Metadata)) → ReadsOrPanics l
unfolding versions_of exists
versions_of-ReadsOrPanics [] = inr ([], refl, refl)
versions_of-ReadsOrPanics (none ∷ l) = inl (refl, refl)
versions_of-ReadsOrPanics (some m ∷ l) = elim (versions_of-ReadsOrPanics l) [
  | inl (p, q) ↦ inl (p, rw q refl)
  | inr (ms, p, q) ↦ inr (m ∷ ms, ap (◌∷◌ (some m)) p, rw q refl)
]

abbrev pub BuildsOrPanics : Definition → List (String × List (Option Metadata)) → Type 0
BuildsOrPanics d entries =
    ((has_nil entries ≡ true) × (build_charts d entries ≡ none))
    ⊎ ((es : List (String × List Metadata)) × (entries ≡ pointers es)
        × (build_charts d entries ≡ some (charts_of d es)))

-- An entry in front of entries that have charts.
add_chart-BuildsOrPanics :
    (d : Definition) (key : String) (l : List (Option Metadata))
    (entries : List (String × List (Option Metadata))) (es : List (String × List Metadata))
    → entries ≡ pointers es
    → build_charts d entries ≡ some (charts_of d es)
    → BuildsOrPanics d ((key, l) ∷ entries)
unfolding build_charts add_chart add_versions versions_of exists
add_chart-BuildsOrPanics d key [] entries es p q =
    inr ((key, []) ∷ es, ap (◌∷◌ (key, [])) p, rw q refl)
add_chart-BuildsOrPanics d key (none ∷ l) entries es p q = inl (refl, rw q refl)
add_chart-BuildsOrPanics d key (some m ∷ l) entries es p q = elim (versions_of-ReadsOrPanics l) [
  | inl (a, b) ↦ inl (rw a refl, rw (q, b) refl)
  | inr (ms, a, b) ↦ inr ((key, m ∷ ms) ∷ es, rw (a, p) refl, rw (q, b) refl)
]

-- Where an entry has a nil pointer the program panics; otherwise each entry that has metadata
-- gives one chart, in the order of the walk, with the first metadata and the versions of all.
pub build_charts-BuildsOrPanics :
    (d : Definition) (entries : List (String × List (Option Metadata))) → BuildsOrPanics d entries
unfolding build_charts exists
build_charts-BuildsOrPanics d [] = inr ([], refl, refl)
build_charts-BuildsOrPanics d ((key, l) ∷ entries) = elim (build_charts-BuildsOrPanics d entries) [
  | inl (p, q) ↦ inl (ground arith, rw q refl)
  | inr (es, p, q) ↦ add_chart-BuildsOrPanics d key l entries es p q
]
