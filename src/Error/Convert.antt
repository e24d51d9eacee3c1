-- ===== src/Error/Convert.antt =====
-- The conversion of the SDK's errors (`Error::from_c2pa_error` of src/error.rs).
use c2pa_c.Common.{Bytes, codes}
use c2pa_c.Error.{
  Error, assertion, assertion_not_found, decoding, encoding, file_not_found, io, json, manifest,
  manifest_not_found, not_supported, other, remote_manifest, resource_not_found, signature, verify,
}

-- The variants of `c2pa::Error` that the match names, and `unlisted` for all others.
pub data Variant : Type 0 where
  assertion_missing : Variant
  assertion_invalid_redaction assertion_redaction_not_found assertion_unsupported_version : Variant
  claim_already_signed claim_unsigned claim_missing_signature_box claim_missing_identity : Variant
  claim_version claim_invalid_content claim_missing_hard_binding claim_self_redact : Variant
  claim_disallowed_redaction update_manifest_invalid too_many_manifest_stores : Variant
  claim_missing : Variant
  assertion_decoding claim_decoding : Variant
  assertion_encoding xml_write_error claim_encoding : Variant
  invalid_cose_signature : Variant
  cose_signature_algorithm_not_supported cose_missing_key cose_x5_chain_missing : Variant
  cose_invalid_cert cose_signature cose_verifier cose_cert_expiration cose_cert_revoked : Variant
  cose_invalid_time_stamp cose_time_stamp_validity cose_time_stamp_mismatch : Variant
  cose_time_stamp_generation cose_time_stamp_authority cose_sigbox_too_small : Variant
  invalid_ecdsa_signature : Variant
  remote_manifest_fetch remote_manifest_url : Variant
  jumbf_not_found : Variant
  bad_param missing_feature : Variant
  io_error : Variant
  json_error : Variant
  not_found resource_not_found_at missing_data_box : Variant
  file_not_found_at : Variant
  unsupported_type : Variant
  claim_verification invalid_claim jumbf_parse_error : Variant
  unlisted : Variant

-- What the conversion sees of a `c2pa::Error`: its variant, and its text by `to_string`.
pub record C2paError : Type 0 where
  pub variant : Variant
  pub message : Bytes

-- The arms of the match, on the variant and the text.
unfoldable pub convert : Variant → Bytes → Error
convert assertion_missing err_str = assertion_not_found (codes "")
convert assertion_invalid_redaction err_str = assertion err_str
convert assertion_redaction_not_found err_str = assertion err_str
convert assertion_unsupported_version err_str = assertion err_str
convert claim_already_signed err_str = manifest err_str
convert claim_unsigned err_str = manifest err_str
convert claim_missing_signature_box err_str = manifest err_str
convert claim_missing_identity err_str = manifest err_str
convert claim_version err_str = manifest err_str
convert claim_invalid_content err_str = manifest err_str
convert claim_missing_hard_binding err_str = manifest err_str
convert claim_self_redact err_str = manifest err_str
convert claim_disallowed_redaction err_str = manifest err_str
convert update_manifest_invalid err_str = manifest err_str
convert too_many_manifest_stores err_str = manifest err_str
convert claim_missing err_str = manifest_not_found err_str
convert assertion_decoding err_str = decoding err_str
convert claim_decoding err_str = decoding err_str
convert assertion_encoding err_str = encoding err_str
convert xml_write_error err_str = encoding err_str
convert claim_encoding err_str = encoding err_str
convert invalid_cose_signature err_str = signature err_str
convert cose_signature_algorithm_not_supported err_str = signature err_str
convert cose_missing_key err_str = signature err_str
convert cose_x5_chain_missing err_str = signature err_str
convert cose_invalid_cert err_str = signature err_str
convert cose_signature err_str = signature err_str
convert cose_verifier err_str = signature err_str
convert cose_cert_expiration err_str = signature err_str
convert cose_cert_revoked err_str = signature err_str
convert cose_invalid_time_stamp err_str = signature err_str
convert cose_time_stamp_validity err_str = signature err_str
convert cose_time_stamp_mismatch err_str = signature err_str
convert cose_time_stamp_generation err_str = signature err_str
convert cose_time_stamp_authority err_str = signature err_str
convert cose_sigbox_too_small err_str = signature err_str
convert invalid_ecdsa_signature err_str = signature err_str
convert remote_manifest_fetch err_str = remote_manifest err_str
convert remote_manifest_url err_str = remote_manifest err_str
convert jumbf_not_found err_str = manifest_not_found err_str
convert bad_param err_str = other err_str
convert missing_feature err_str = other err_str
convert io_error err_str = io err_str
convert json_error err_str = json err_str
convert not_found err_str = resource_not_found err_str
convert resource_not_found_at err_str = resource_not_found err_str
convert missing_data_box err_str = resource_not_found err_str
convert file_not_found_at err_str = file_not_found err_str
convert unsupported_type err_str = not_supported err_str
convert claim_verification err_str = verify err_str
convert invalid_claim err_str = verify err_str
convert jumbf_parse_error err_str = verify err_str
convert unlisted err_str = other err_str

unfoldable pub from_c2pa_error : C2paError → Error
unfolding convert
from_c2pa_error err = convert err.variant err.message
