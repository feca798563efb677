-- ===== src/Helm/Archive/Scan.antt =====
-- What the loop of `ParseReadmeValues` over the archive of a chart reads.
use Prim.Native.String.{◌++◌ as append}
use cluster_api_provider_vcl.Base.{
  ◌≡◌, refl, ap, String, Bool, true, false, not, Option, none, some, List, [], ◌∷◌, ◌==◌, arith,
  inl, inr, ◌⊎◌,
}
use cluster_api_provider_vcl.Base.Tests.{if◌then◌else◌, nat_eq, Bool-cases}
use cluster_api_provider_vcl.Base.Slashes.{split_slashes}
use cluster_api_provider_vcl.Runtime.{Error, Result, ok, err, errorf}
use cluster_api_provider_vcl.Helm.Archive.{
  Archive, end, broken, member, Header, type_reg, type_dir, is_named, unknown_type, take_readme,
  take_values, discard, read_archive,
}

-- What an entry is to the loop.
pub data Kind : Type 0 where
  directory readme values plain unknown : Kind

unfoldable pub kind_of : Header → Kind
kind_of h =
    if nat_eq h.typeflag type_dir
    then directory
    else if nat_eq h.typeflag type_reg
    then (if is_named "README.md" (split_slashes h.name)
        then readme
        else if is_named "values.yaml" (split_slashes h.name)
        then values
        else plain)
    else unknown

-- The text that is kept for a kind, after an entry.
abbrev pub readme_after : String → Kind → Result String → String
readme_after so_far readme (ok text) = text
readme_after so_far _ _ = so_far

abbrev pub values_after : String → Kind → Result String → String
values_after so_far values (ok text) = text
values_after so_far _ _ = so_far

abbrev pub last_readme : String → List (Header × Result String) → String
last_readme so_far [] = so_far
last_readme so_far ((h, text) ∷ es) = last_readme (readme_after so_far (kind_of h) text) es

abbrev pub last_values : String → List (Header × Result String) → String
last_values so_far [] = so_far
last_values so_far ((h, text) ∷ es) = last_values (values_after so_far (kind_of h) text) es

-- The entry brings one of the texts where the other one is there.
abbrev pub completes : Kind → (so_far_readme so_far_values : String) → Bool
completes readme r v = not (v == "")
completes values r v = not (r == "")
completes _ r v = false

-- The error of an entry that can not be read, or of one that is no file.
abbrev pub fault : Kind → Header → Result String → Option Error
fault unknown h text = some (unknown_type h)
fault readme h (err e) = some (errorf (append "extract: error reading README.md: " e.message))
fault values h (err e) = some (errorf (append "extract: error reading values.yaml: " e.message))
fault plain h (err e) = some (errorf (append "extract: Copy() failed: " e.message))
fault _ h text = none

-- No entry is at fault, and none brings the second text.
abbrev pub IsUnfinished : (r v : String) → List (Header × Result String) → Type 0
IsUnfinished r v [] = Unit
IsUnfinished r v ((h, text) ∷ es) =
    (fault (kind_of h) h text ≡ none)
    × (completes (kind_of h) r v ≡ false)
    × IsUnfinished (readme_after r (kind_of h) text) (values_after v (kind_of h) text) es

-- The archive with some entries in front.
abbrev pub behind : List (Header × Result String) → Archive → Archive
behind [] rest = rest
behind ((h, text) ∷ es) rest = member h text (behind es rest)

-- The result by what stands behind the entries that were read.
abbrev pub EndsWith : (r v : String) → Archive → Result (String × String) → Type 0
EndsWith r v end result = result ≡ ok (r, v)
EndsWith r v (broken e) result = result ≡ err (errorf (append "extract: Next() failed: " e.message))
EndsWith r v (member h text rest) result =
    ((e : Error) × (fault (kind_of h) h text ≡ some e) × (result ≡ err e))
    ⊎ ((fault (kind_of h) h text ≡ none)
        × (completes (kind_of h) r v ≡ true)
        × (result ≡ ok (readme_after r (kind_of h) text, values_after v (kind_of h) text)))

pub record IsScan (r v : String) (archive : Archive) (result : Result (String × String))
    : Type 0 where
  pub seen : List (Header × Result String)
  pub rest : Archive
  pub split : archive ≡ behind seen rest
  pub unfinished : IsUnfinished r v seen
  pub ends : EndsWith (last_readme r seen) (last_values v seen) rest result

-- The body of the loop, by the kind of the entry.
by_kind :
    Kind
    → Header
    → Result String
    → (again : (readme values : String) → Result (String × String)) → (r v : String)
    → Result (String × String)
by_kind directory h text again r v = again r v
by_kind readme h text again r v = take_readme again v text
by_kind values h text again r v = take_values again r text
by_kind plain h text again r v = discard again r v text
by_kind unknown h text again r v = err (unknown_type h)

read_archive-by_kind :
    (h : Header) (text : Result String) (rest : Archive) (r v : String)
    → read_archive (member h text rest) r v ≡ by_kind (kind_of h) h text (read_archive rest) r v
unfolding read_archive kind_of by_kind
read_archive-by_kind h text rest r v = ground arith

module _ (h : Header) (text : Result String) (rest : Archive) (r v : String)
    (result : Result (String × String)) where
  stop : EndsWith r v (member h text rest) result → IsScan r v (member h text rest) result
  stop e = record { seen = []; rest = member h text rest; split = refl; unfinished = tt; ends = e }

  pass :
      fault (kind_of h) h text ≡ none
      → completes (kind_of h) r v ≡ false
      → IsScan (readme_after r (kind_of h) text) (values_after v (kind_of h) text) rest result
      → IsScan r v (member h text rest) result
  pass f c s = record {
    seen = (h, text) ∷ s.seen;
    rest = s.rest;
    split = ap (member h text) s.split;
    unfinished = (f, c, s.unfinished);
    ends = s.ends;
  }

-- One entry, where the loop over the others is known.
by_kind-IsScan :
    (k : Kind) (h : Header) (text : Result String) (rest : Archive) (r v : String)
    → kind_of h ≡ k
    → ((r' v' : String) → IsScan r' v' rest (read_archive rest r' v'))
    → IsScan r v (member h text rest) (by_kind k h text (read_archive rest) r v)
unfolding by_kind take_readme take_values discard
by_kind-IsScan directory h text rest r v e ih =
    pass h text rest r v _ (rw e refl) (rw e refl) (rw e (ih r v))
by_kind-IsScan unknown h text rest r v e ih =
    stop h text rest r v _ (inl (unknown_type h, rw e refl, refl))
by_kind-IsScan plain h (err x) rest r v e ih =
    stop h (err x) rest r v _
      (inl (errorf (append "extract: Copy() failed: " x.message), rw e refl, refl))
by_kind-IsScan plain h (ok t) rest r v e ih =
    pass h (ok t) rest r v _ (rw e refl) (rw e refl) (rw e (ih r v))
by_kind-IsScan readme h (err x) rest r v e ih =
    stop h (err x) rest r v _
      (inl (errorf (append "extract: error reading README.md: " x.message), rw e refl, refl))
by_kind-IsScan readme h (ok t) rest r v e ih = elim (Bool-cases (v == "")) [
  | inl b ↦ rw b (pass h (ok t) rest r v _ (rw e refl) (rw (e, b) refl) (rw e (ih t v)))
  | inr b ↦ rw b (stop h (ok t) rest r v _ (inr (rw e refl, rw (e, b) refl, rw e refl)))
]
by_kind-IsScan values h (err x) rest r v e ih =
    stop h (err x) rest r v _
      (inl (errorf (append "extract: error reading values.yaml: " x.message), rw e refl, refl))
by_kind-IsScan values h (ok t) rest r v e ih = elim (Bool-cases (r == "")) [
  | inl b ↦ rw b (pass h (ok t) rest r v _ (rw e refl) (rw (e, b) refl) (rw e (ih r t)))
  | inr b ↦ rw b (stop h (ok t) rest r v _ (inr (rw e refl, rw (e, b) refl, rw e refl)))
]

-- The loop over an archive, from any texts so far, reads the entries up to the end, to an error,
-- or to the first README or values file that finds the other text there. The texts that it gives
-- are those of the last README and of the last values file that it read; a file that can not be
-- copied, an entry that is neither a file nor a directory, and a broken archive are its errors.
pub read_archive-IsScan :
    (archive : Archive) (r v : String) → IsScan r v archive (read_archive archive r v)
read_archive-IsScan end r v = record {
  seen = [];
  rest = end;
  split = refl;
  unfinished = tt;
  ends = unfold read_archive in refl;
}
read_archive-IsScan (broken e) r v = record {
  seen = [];
  rest = broken e;
  split = refl;
  unfinished = tt;
  ends = unfold read_archive in refl;
}
read_archive-IsScan (member h text rest) r v =
    rw (read_archive-by_kind h text rest r v)
      (by_kind-IsScan (kind_of h) h text rest r v refl (read_archive-IsScan rest))
