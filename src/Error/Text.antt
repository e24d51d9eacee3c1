-- ===== src/Error/Text.antt =====
-- The texts of errors (src/error.rs) as a client reads them.
use c2pa_c.Common.{
  Bytes, [], ◌∷◌, Option, none, some, ◌≡◌, refl, ap, ◌≢◌, arith, ◌==◌, if◌then◌else◌,
}
use mathlib.Core.Option.{some-injective}
use c2pa_c.Error.{
  Error, assertion, assertion_not_found, decoding, encoding, file_not_found, io, json, manifest,
  manifest_not_found, not_supported, other, null_parameter, remote_manifest, resource_not_found,
  signature, verify, label, text, to_string,
}
use c2pa_c.Error.Convert.{Variant, C2paError, assertion_missing, convert, from_c2pa_error}

-- What follows the prefix, if the text begins with it.
strip_prefix : Bytes → Bytes → Option Bytes
strip_prefix [] s = some s
strip_prefix (c ∷ p) [] = none
strip_prefix (c ∷ p) (d ∷ s) = let rest = strip_prefix p s in if c == d then rest else none

-- One constructor for a text with its label in front; else the other candidates.
try_label : (Bytes → Error) → Bytes → Option Error → Option Error
unfolding strip_prefix label
try_label make s others = elim (strip_prefix (label (make [])) s) [
  | some rest ↦ some (make rest)
  | none ↦ others
]

-- A reader of the texts, which a client could write.
pub parse : Bytes → Option Error
unfolding try_label
parse s = try_label assertion s (
    try_label assertion_not_found s (
      try_label decoding s (
        try_label encoding s (
          try_label file_not_found s (
            try_label io s (
              try_label json s (
                try_label manifest s (
                  try_label manifest_not_found s (
                    try_label not_supported s (
                      try_label other s (
                        try_label null_parameter s (
                          try_label remote_manifest s (
                            try_label resource_not_found s
                              (try_label signature s (try_label verify s none)))))))))))))))

-- An error can be read back from its text: `parse` on what `to_string` prints gives the error.
pub parse-to_string : (e : Error) → parse (to_string e) ≡ some e
unfolding parse to_string
parse-to_string (assertion s) = refl
parse-to_string (json s) = refl
parse-to_string _ = refl

-- Two errors that print the same text are the same error: kind and text.
pub to_string-injective : (e f : Error) → to_string e ≡ to_string f → e ≡ f
to_string-injective e f h =
    let same : some e ≡ some f = cc (ap parse h, parse-to_string e, parse-to_string f) in
    some-injective _ _ same

-- All but one variant of the SDK keep their text.
abbrev pub kept : Variant → Bytes → Bytes
kept assertion_missing message = []
kept _ message = message

-- The text of a converted error is the SDK's, but for `AssertionMissing`, whose text is lost; and
-- no conversion gives the error that stands for a null argument.
pub from_c2pa_error-text :
    (err : C2paError)
    → (text (from_c2pa_error err) ≡ kept err.variant err.message)
      × ((s : Bytes) → from_c2pa_error err ≢ null_parameter s)
unfolding from_c2pa_error text
from_c2pa_error-text err = go err.variant err.message
  where
    go :
        (v : Variant) (m : Bytes)
        → (text (convert v m) ≡ kept v m) × ((s : Bytes) → convert v m ≢ null_parameter s)
    go assertion_missing m = (refl, λ s. ground arith)
    go _ m = (refl, λ s. ground arith)
