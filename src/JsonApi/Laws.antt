-- ===== src/JsonApi/Laws.antt =====
-- Successful runs of the functions on files (src/json_api.rs).
use c2pa_c.Common.{
  Bytes, Option, none, some, Result, ok, err, ◌≡◌, refl, ◌>>=◌, pure, Bool, true, false, is_some,
  if◌then◌else◌,
}
use c2pa_c.Error.{Error}
use c2pa_c.Error.Convert.{C2paError}
use c2pa_c.Error.Last.{Thread}
use c2pa_c.Sdk.{Sdk, SignerInfo, Call}
use c2pa_c.SignerInfo.{map_err, Fallible, and_then, signer_of}
use c2pa_c.JsonApi.{keep_manifest, adopt_source, set_base_path, choose_parent, sign_file}

-- A chain of fallible actions that succeeds has succeeded in each.
and_then-ok :
    {E A B : Type 0} (m : Fallible E A) (f : A → Fallible E B) (t t' : Thread E) (b : B)
    → and_then m f t ≡ some (ok b, t')
    → (a : A) × (u : Thread E) × (m t ≡ some (ok a, u)) × (f a u ≡ some (ok b, t'))
and_then-ok {E} {A} {B} m f t t' b e = by_result (m t) e
  where
    by_result :
        (x : Option (Result A Error × Thread E))
        → and_then (λ _. x) f t ≡ some (ok b, t')
        → (a : A) × (u : Thread E) × (x ≡ some (ok a, u)) × (f a u ≡ some (ok b, t'))
    by_result none k = cc
    by_result (some (ok a, u)) k = (a, u, refl, k)
    by_result (some (err x, u)) k = cc

module _ {E A : Type 0} where
  -- The SDK's answer, and `?` on it.
  abbrev asked : {B : Type 0} → Call E A → (A → Fallible E B) → Fallible E B
  asked m f = m >>= λ r. and_then (pure (map_err r)) f

  asked-ok :
      {B : Type 0} (m : Call E A) (f : A → Fallible E B) (t t' : Thread E) (b : B)
      → asked m f t ≡ some (ok b, t')
      → (a : A) × (u : Thread E) × (m t ≡ some (ok a, u)) × (f a u ≡ some (ok b, t'))
  unfolding map_err
  asked-ok {B} m f t t' b e = by_result (m t) e
    where
      by_result :
          (x : Option (Result A C2paError × Thread E))
          → asked (λ _. x) f t ≡ some (ok b, t')
          → (a : A) × (u : Thread E) × (x ≡ some (ok a, u)) × (f a u ≡ some (ok b, t'))
      by_result none k = cc
      by_result (some (ok a, u)) k = (a, u, refl, k)
      by_result (some (err x, u)) k = cc

  -- An answer that is passed on as a success.
  unfoldable pub passed : Call E A → Fallible E A
  passed m = m >>= λ r. pure (map_err r)

  pub passed-ok :
      (m : Call E A) (t t' : Thread E) (a : A)
      → passed m t ≡ some (ok a, t')
      → m t ≡ some (ok a, t')
  unfolding map_err passed
  passed-ok m t t' a e = by_result (m t) e
    where
      by_result :
          (x : Option (Result A C2paError × Thread E))
          → passed (λ _. x) t ≡ some (ok a, t')
          → x ≡ some (ok a, t')
      by_result none k = cc
      by_result (some (ok a, u)) k = cc
      by_result (some (err x, u)) k = cc

module _ (sdk : Sdk) where
  -- Where `sign_file` succeeds, these steps did, in this order: the manifest was read from the
  -- JSON, the base path and the parent were set on it, the signer was made, and the manifest was
  -- embedded, which gave the result.
  pub sign_file-steps :
      (source dest json : Bytes) (info : SignerInfo) (dir : Option Bytes) (bytes : Bytes)
      (t t' : Thread sdk.Env)
      → sign_file sdk source dest json info dir t ≡ some (ok bytes, t')
      → (m₁ m₂ m₃ : sdk.Manifest) × (k : sdk.Signer) × (t₁ t₂ t₃ t₄ : Thread sdk.Env)
        × (sdk.manifest_from_json json t ≡ some (ok m₁, t₁))
        × (set_base_path sdk m₁ dir t₁ ≡ some (ok m₂, t₂))
        × (choose_parent sdk m₂ source t₂ ≡ some (ok m₃, t₃))
        × (signer_of sdk info t₃ ≡ some (ok k, t₄))
        × (sdk.embed m₃ source dest k t₄ ≡ some (ok bytes, t'))
  unfolding sign_file passed
  sign_file-steps source dest json info dir bytes t t' e =
      let made_and_embedded : sdk.Manifest → Fallible sdk.Env Bytes =
        λ m. and_then (signer_of sdk info) λ k. passed (sdk.embed m source dest k) in
      let chosen_first : sdk.Manifest → Fallible sdk.Env Bytes =
        λ m. and_then (choose_parent sdk m source) made_and_embedded in
      let (m₁, t₁, parsed, e₁) =
        asked-ok (sdk.manifest_from_json json)
          (λ m. and_then (set_base_path sdk m dir) chosen_first) t t' bytes e in
      let (m₂, t₂, based, e₂) =
        and_then-ok (set_base_path sdk m₁ dir) chosen_first t₁ t' bytes e₁ in
      let (m₃, t₃, chosen, e₃) =
        and_then-ok (choose_parent sdk m₂ source) made_and_embedded t₂ t' bytes e₂ in
      let (k, t₄, made, e₄) =
        and_then-ok (signer_of sdk info) (λ k. passed (sdk.embed m₃ source dest k)) t₃ t' bytes
          e₃ in
      (
        m₁,
        m₂,
        m₃,
        k,
        t₁,
        t₂,
        t₃,
        t₄,
        parsed,
        based,
        chosen,
        made,
        passed-ok (sdk.embed m₃ source dest k) t₄ t' bytes e₄,
      )

  -- How a parent is chosen: the manifest names one, the source has no manifest store, or the source
  -- is adopted.
  pub data Chosen (m : sdk.Manifest) (source : Bytes) (t t' : Thread sdk.Env) (m' : sdk.Manifest)
      : Type 0 where
    named : is_some (sdk.parent m) ≡ true → t' ≡ t → m' ≡ m → Chosen m source t t' m'
    unsigned :
        (i : sdk.Ingredient)
        → is_some (sdk.parent m) ≡ false
        → sdk.ingredient_from_file source t ≡ some (ok i, t')
        → is_some (sdk.manifest_data i) ≡ false
        → m' ≡ m
        → Chosen m source t t' m'
    adopted :
        (i : sdk.Ingredient) (u : Thread sdk.Env)
        → is_some (sdk.parent m) ≡ false
        → sdk.ingredient_from_file source t ≡ some (ok i, u)
        → is_some (sdk.manifest_data i) ≡ true
        → sdk.set_parent m i u ≡ some ((ok tt, m'), t')
        → Chosen m source t t' m'

  adopt-Chosen :
      (m m' : sdk.Manifest) (source : Bytes) (i : sdk.Ingredient) (t u t' : Thread sdk.Env)
      → is_some (sdk.parent m) ≡ false
      → sdk.ingredient_from_file source t ≡ some (ok i, u)
      → adopt_source sdk m i u ≡ some (ok m', t')
      → Chosen m source t t' m'
  unfolding adopt_source keep_manifest map_err
  adopt-Chosen m m' source i t u t' orphan read e = by_data (is_some (sdk.manifest_data i)) refl e
    where
      by_answer :
          (x : Option ((Result (Unit {0}) C2paError × sdk.Manifest) × Thread sdk.Env))
          → sdk.set_parent m i u ≡ x
          → is_some (sdk.manifest_data i) ≡ true
          → ((λ _. x) >>= λ y. keep_manifest sdk (map_err y.0) y.1) u ≡ some (ok m', t')
          → Chosen m source t t' m'
      by_answer none set has k = cc
      by_answer (some ((ok _, m''), v)) set has k = adopted i u orphan read has (cc)
      by_answer (some ((err x, m''), v)) set has k = cc

      by_data :
          (b : Bool)
          → is_some (sdk.manifest_data i) ≡ b
          → (if b
                then (sdk.set_parent m i >>= λ y. keep_manifest sdk (map_err y.0) y.1)
                else pure (ok m))
              u
            ≡ some (ok m', t')
          → Chosen m source t t' m'
      by_data true has k = by_answer (sdk.set_parent m i u) refl has k
      by_data false has k = unsigned i orphan (cc) has (cc)

  -- When the choice of a parent succeeds, the manifest goes on unchanged if it names a parent (then
  -- nothing is read) or if the source that was read has no manifest store; else it is what
  -- `set_parent` made of it from the source as an ingredient.
  pub choose_parent-Chosen :
      (m m' : sdk.Manifest) (source : Bytes) (t t' : Thread sdk.Env)
      → choose_parent sdk m source t ≡ some (ok m', t')
      → Chosen m source t t' m'
  unfolding choose_parent
  choose_parent-Chosen m m' source t t' e = by_parent (is_some (sdk.parent m)) refl e
    where
      by_parent :
          (b : Bool)
          → is_some (sdk.parent m) ≡ b
          → (if b
                then pure (ok m)
                else asked (sdk.ingredient_from_file source) (adopt_source sdk m))
              t
            ≡ some (ok m', t')
          → Chosen m source t t' m'
      by_parent true has k = named has (cc) (cc)
      by_parent false has k =
          let (i, u, read, rest) =
            asked-ok (sdk.ingredient_from_file source) (adopt_source sdk m) t t' m' k in
          adopt-Chosen m m' source i t u t' has read rest
