-- ===== src/Error.antt =====
-- The errors of the library (src/error.rs): the published `Error`, its texts, the conversion from
-- the errors of the SDK, and the last error of the thread.
pub mod Convert
pub mod Last
pub mod Text
use c2pa_c.Common.{Bytes, codes, ◌++◌}

-- `Error`, one constructor for each variant with its text.
pub data Error : Type 0 where
  assertion assertion_not_found decoding encoding : Bytes → Error
  file_not_found io json manifest : Bytes → Error
  manifest_not_found not_supported other null_parameter : Bytes → Error
  remote_manifest resource_not_found signature verify : Bytes → Error

-- The words that stand before the text, as the `#[error]` attributes give them.
unfoldable pub label : Error → Bytes
label (assertion _) = codes "Assertion "
label (assertion_not_found _) = codes "AssertionNotFound "
label (decoding _) = codes "Decoding "
label (encoding _) = codes "Encoding "
label (file_not_found _) = codes "FileNotFound "
label (io _) = codes "Io "
label (json _) = codes "Json "
label (manifest _) = codes "Manifest "
label (manifest_not_found _) = codes "ManifestNotFound "
label (not_supported _) = codes "NotSupported "
label (other _) = codes "Other "
label (null_parameter _) = codes "NullParameter "
label (remote_manifest _) = codes "Remote "
label (resource_not_found _) = codes "ResourceNotFound "
label (signature _) = codes "Signature "
label (verify _) = codes "Verify "

-- The field `{0}` of the attributes.
unfoldable pub text : Error → Bytes
text (assertion s) = s
text (assertion_not_found s) = s
text (decoding s) = s
text (encoding s) = s
text (file_not_found s) = s
text (io s) = s
text (json s) = s
text (manifest s) = s
text (manifest_not_found s) = s
text (not_supported s) = s
text (other s) = s
text (null_parameter s) = s
text (remote_manifest s) = s
text (resource_not_found s) = s
text (signature s) = s
text (verify s) = s

-- `to_string`, which the derived `Display` gives.
unfoldable pub to_string : Error → Bytes
unfolding label text
to_string e = label e ++ text e
