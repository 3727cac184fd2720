-- ===== src/Http/StatusCode.antt =====
-- The status codes of sdk/core/core/inc/az_http.h.
use azure_sdk_for_c.Base.{ℕ}

-- `_az_http_status_code`
pub data StatusCode : Type 0 where
  continue switching_protocols processing : StatusCode
  early_hints : StatusCode
  ok created accepted : StatusCode
  non_authoritative_information no_content reset_content : StatusCode
  partial_content multi_status already_reported : StatusCode
  im_used : StatusCode
  multiple_choices moved_permanently found : StatusCode
  see_other not_modified use_proxy : StatusCode
  temporary_redirect permanent_redirect : StatusCode
  bad_request unauthorized payment_required : StatusCode
  forbidden not_found method_not_allowed : StatusCode
  not_acceptable proxy_authentication_required request_timeout : StatusCode
  conflict gone length_required : StatusCode
  precondition_failed payload_too_large uri_too_long : StatusCode
  unsupported_media_type range_not_satisfiable expectation_failed : StatusCode
  misdirected_request unprocessable_entity locked : StatusCode
  failed_dependency too_early upgrade_required : StatusCode
  precondition_required too_many_requests request_header_fields_too_large : StatusCode
  unavailable_for_legal_reasons : StatusCode
  internal_server_error not_implemented bad_gateway : StatusCode
  service_unavailable gateway_timeout http_version_not_supported : StatusCode
  variant_also_negotiates insufficient_storage loop_detected : StatusCode
  not_extended network_authentication_required : StatusCode

unfoldable pub status_code : StatusCode → ℕ
status_code continue = 100
status_code switching_protocols = 101
status_code processing = 102
status_code early_hints = 103
status_code ok = 200
status_code created = 201
status_code accepted = 202
status_code non_authoritative_information = 203
status_code no_content = 204
status_code reset_content = 205
status_code partial_content = 206
status_code multi_status = 207
status_code already_reported = 208
status_code im_used = 226
status_code multiple_choices = 300
status_code moved_permanently = 301
status_code found = 302
status_code see_other = 303
status_code not_modified = 304
status_code use_proxy = 305
status_code temporary_redirect = 307
status_code permanent_redirect = 308
status_code bad_request = 400
status_code unauthorized = 401
status_code payment_required = 402
status_code forbidden = 403
status_code not_found = 404
status_code method_not_allowed = 405
status_code not_acceptable = 406
status_code proxy_authentication_required = 407
status_code request_timeout = 408
status_code conflict = 409
status_code gone = 410
status_code length_required = 411
status_code precondition_failed = 412
status_code payload_too_large = 413
status_code uri_too_long = 414
status_code unsupported_media_type = 415
status_code range_not_satisfiable = 416
status_code expectation_failed = 417
status_code misdirected_request = 421
status_code unprocessable_entity = 422
status_code locked = 423
status_code failed_dependency = 424
status_code too_early = 425
status_code upgrade_required = 426
status_code precondition_required = 428
status_code too_many_requests = 429
status_code request_header_fields_too_large = 431
status_code unavailable_for_legal_reasons = 451
status_code internal_server_error = 500
status_code not_implemented = 501
status_code bad_gateway = 502
status_code service_unavailable = 503
status_code gateway_timeout = 504
status_code http_version_not_supported = 505
status_code variant_also_negotiates = 506
status_code insufficient_storage = 507
status_code loop_detected = 508
status_code not_extended = 510
status_code network_authentication_required = 511
