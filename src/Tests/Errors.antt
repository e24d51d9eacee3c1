-- ===== src/Tests/Errors.antt =====
-- The theorems on errors, at inputs.
use c2pa_c.Common.{codes, some, ◌≡◌, refl, ◌≢◌, Bytes, []}
use c2pa_c.Error.{io, null_parameter, to_string, text}
use c2pa_c.Error.Convert.{from_c2pa_error, C2paError, assertion_missing}
use c2pa_c.Error.Text.{parse, parse-to_string, from_c2pa_error-text}

to_string_io : to_string (io (codes "gone")) ≡ codes "Io gone"
unfolding to_string
to_string_io = refl

parse-to_string_example : parse (to_string (io (codes "gone"))) ≡ some (io (codes "gone"))
parse-to_string_example = parse-to_string (io (codes "gone"))

abbrev missing : C2paError
missing = record { variant = assertion_missing; message = codes "url" }

from_c2pa_error-text_example :
    (text (from_c2pa_error missing) ≡ [])
    × ((s : Bytes) → from_c2pa_error missing ≢ null_parameter s)
from_c2pa_error-text_example = from_c2pa_error-text missing
