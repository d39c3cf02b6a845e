-- ===== src/Schema/Laws.antt =====
-- The cache of codecs of internal/schema/schema.go.
use go_api_demo.Prelude.{
  String, ◌≡◌, refl, ap, ◌∙◌, Option-cases, some, ◌⊎◌, inl, inr, arith, eq_refl, eq_iff, ◌==◌,
  if◌then◌else◌,
}
use go_api_demo.Prelude.Dict.{Dict, lookup, insert, lookup-insert}
use go_api_demo.Error.{Error}
use go_api_demo.Json.{Document}
use go_api_demo.Schema.{Registry, Client, decode_schema, show_schema, keep_codec, get_schema_codec}

kept : {V : Type 0} (k : String) (v : V) (d : Dict V) → lookup k (insert k v d) ≡ some v
kept k v d = lookup-insert k k v d ∙ ap (λ b. if b then some v else lookup k d) (eq_refl k)

sum-cases : {A B : Type 0} (s : A ⊎ B) → ((a : A) × (s ≡ inl a)) ⊎ ((b : B) × (s ≡ inr b))
sum-cases (inl a) = inl (a, refl)
sum-cases (inr b) = inr (b, refl)

module _ {H Codec Data : Type 0} (registry : Registry H Codec Data) (endpoint : String) where
  abbrev pub call : Client H Codec → (Codec ⊎ Error) × Client H Codec
  call = get_schema_codec registry endpoint

  -- What a call leaves: the codec in the cache, or an error and the cache as it was.
  abbrev pub Kept : Client H Codec → (Codec ⊎ Error) × Client H Codec → Type 0
  Kept c r =
      ((codec : Codec) × (r.0 ≡ inl codec)
        × (lookup endpoint r.1.codecs ≡ some codec)
        × ((other : String)
            → lookup other r.1.codecs
              ≡ (if endpoint == other then some codec else lookup other c.codecs)))
      ⊎ ((e : Error) × (r.0 ≡ inr e) × (r.1.codecs ≡ c.codecs))

  keep_codec-Kept :
      (body : Document) (c : Client H Codec) → Kept c (keep_codec registry endpoint body c)
  unfolding keep_codec
  keep_codec-Kept body c = elim (sum-cases (decode_schema body)) [
    | inr (e, bad) ↦ rw (bad, keep_codec) (inr (_, refl, refl))
    | inl (schema, good) ↦ elim (sum-cases (registry.new_codec (show_schema registry schema))) [
      | inr (e, bad) ↦ rw (good, keep_codec) (rw bad (inr (_, refl, refl)))
      | inl (codec, made) ↦
          rw (good, keep_codec)
            (rw made (
              inl (
                codec,
                refl,
                kept endpoint codec c.codecs,
                λ other. lookup-insert endpoint other codec c.codecs,
              )))
    ]
  ]

  call-Kept : (c : Client H Codec) → Kept c (call c)
  unfolding get_schema_codec
  call-Kept c = elim (Option-cases (lookup endpoint c.codecs)) [
    | inr (codec, hit) ↦
        rw (hit, get_schema_codec)
          (inl (codec, refl, hit, λ other. ground (arith, eq_iff endpoint other)))
    | inl miss ↦ elim (Option-cases (registry.new_request endpoint)) [
      | inr (e, bad) ↦ rw (miss, get_schema_codec) (rw bad (inr (_, refl, refl)))
      | inl fine ↦ elim (Option-cases (registry.fetch endpoint c.http).0.1) [
        | inr (e, bad) ↦ rw (miss, get_schema_codec) (rw fine (rw bad (inr (_, refl, refl))))
        | inl got ↦
            rw (miss, get_schema_codec)
              (rw fine (
                rw got (
                  keep_codec-Kept (registry.fetch endpoint c.http).0.0
                    (record c { http = (registry.fetch endpoint c.http).1 }))))
      ]
    ]
  ]

  hit :
      (c : Client H Codec) (codec : Codec)
      → lookup endpoint c.codecs ≡ some codec
      → call c ≡ (inl codec, c)
  unfolding get_schema_codec
  hit c codec e = rw (e, get_schema_codec)

  -- A call returns a codec or an error. With a codec, that codec is in the cache, the entries of the
  -- other endpoints are as they were, and a further call for the endpoint returns the same codec,
  -- makes no request and changes nothing. With an error the cache is as it was.
  pub get_schema_codec_lem :
      (c : Client H Codec) (other : String)
      → ((codec : Codec) × ((call c).0 ≡ inl codec)
          × (lookup other (call c).1.codecs
              ≡ (if endpoint == other then some codec else lookup other c.codecs))
          × (call (call c).1 ≡ (inl codec, (call c).1)))
        ⊎ ((e : Error) × ((call c).0 ≡ inr e) × ((call c).1.codecs ≡ c.codecs))
  get_schema_codec_lem c other = elim (call-Kept c) [
    | inl (codec, r, in_cache, rest) ↦ inl (codec, r, rest other, hit (call c).1 codec in_cache)
    | inr failed ↦ inr failed
  ]
