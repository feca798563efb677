-- ===== src/Helm/Time/RoundTrip.antt =====
-- A time that is marshalled is read back, but for the zero time.
use cluster_api_provider_vcl.Base.{◌≡◌, refl, sym, String, true, false, ◌==◌, arith, inl, inr, ◌⊎◌}
use cluster_api_provider_vcl.Base.Tests.{Bool-cases}
use cluster_api_provider_vcl.Runtime.{ok}
use cluster_api_provider_vcl.Helm.Time.{StdTime, Time, empty_string, marshal_json, unmarshal_json}

-- What the standard library says: a text that it has marshalled is a quoted date, and gives an
-- equal time back.
pub record IsMarshalling {T D L I : Type 0} (std : StdTime T D L I) : Type 0 where
  pub not_null : (t : T) (b : String) → std.marshal_json t ≡ ok b → (b == "null") ≡ false
  pub not_empty : (t : T) (b : String) → std.marshal_json t ≡ ok b → (empty_string == b) ≡ false
  pub reads :
      (t old : T) (b : String)
      → std.marshal_json t ≡ ok b
      → (u : T) × (std.unmarshal_json b old ≡ (ok tt, u)) × (std.equal u t ≡ true)

module _ {T D L I : Type 0} (std : StdTime T D L I) (laws : IsMarshalling std) where
  -- The zero time is marshalled to an empty JSON string, which is read without a change of the time
  -- that was there, whatever it was. Of another time, if it can be marshalled, an equal time is
  -- read back.
  pub unmarshal_json-marshal_json :
      (t old : Time T) (b : String)
      → marshal_json std t ≡ ok b
      → ((std.is_zero t.time ≡ true) × (b ≡ "\"\"") × (unmarshal_json std b old ≡ (ok tt, old)))
        ⊎ ((std.is_zero t.time ≡ false)
            × ((u : Time T) × (unmarshal_json std b old ≡ (ok tt, u))
                × (std.equal u.time t.time ≡ true)))
  unfolding marshal_json unmarshal_json
  unmarshal_json-marshal_json t old b h = elim (Bool-cases (std.is_zero t.time)) [
    | inl z ↦
        let e : ok empty_string ≡ ok b = rw z at h in
        let e' : empty_string ≡ b = ground arith in inl (z, sym e', rw (← e') refl)
    | inr z ↦
        let e : std.marshal_json t.time ≡ ok b = rw z at h in
        let (u, p, q) = laws.reads t.time old.time b e in
        inr (
          z,
          (
            record { time = u },
            rw (laws.not_null t.time b e, laws.not_empty t.time b e, p) refl,
            q,
          ),
        )
  ]
