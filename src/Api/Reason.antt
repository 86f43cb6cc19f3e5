-- ===== src/Api/Reason.antt =====
-- The condition types, condition reasons and event reasons of api/v1alpha1.
use k2a_token_sync.Base.{String}

abbrev pub condition_ready : String
condition_ready = "Ready"

abbrev pub condition_serving_certificate_valid : String
condition_serving_certificate_valid = "ServingCertificateValid"

abbrev pub condition_self_credential_valid : String
condition_self_credential_valid = "SelfCredentialValid"

abbrev pub condition_conflict : String
condition_conflict = "Conflict"

abbrev pub condition_secret_exclusively_owned : String
condition_secret_exclusively_owned = "SecretExclusivelyOwned"

abbrev pub condition_schema_current : String
condition_schema_current = "SchemaCurrent"

abbrev pub reason_ready : String
reason_ready = "Ready"

abbrev pub reason_awaiting_credential : String
reason_awaiting_credential = "AwaitingCredential"

abbrev pub reason_credential_expired : String
reason_credential_expired = "CredentialExpired"

abbrev pub reason_endpoint_unreachable : String
reason_endpoint_unreachable = "EndpointUnreachable"

abbrev pub reason_certificate_invalid : String
reason_certificate_invalid = "CertificateInvalid"

abbrev pub reason_credential_rejected : String
reason_credential_rejected = "CredentialRejected"

abbrev pub reason_credential_replaced : String
reason_credential_replaced = "CredentialReplaced"

abbrev pub reason_secret_name_conflict : String
reason_secret_name_conflict = "SecretNameConflict"

abbrev pub reason_invalid_spec : String
reason_invalid_spec = "InvalidSpec"

abbrev pub reason_endpoint_conflict : String
reason_endpoint_conflict = "EndpointConflict"

abbrev pub reason_permission_denied : String
reason_permission_denied = "PermissionDenied"

abbrev pub reason_role_ref_immutable : String
reason_role_ref_immutable = "RoleRefImmutable"

abbrev pub reason_schema_outdated : String
reason_schema_outdated = "SchemaOutdated"

abbrev pub reason_schema_unverified : String
reason_schema_unverified = "SchemaUnverified"

abbrev pub reason_reconcile_failed : String
reason_reconcile_failed = "ReconcileFailed"

abbrev pub reason_renewal_mint_failed : String
reason_renewal_mint_failed = "RenewalMintFailed"

abbrev pub reason_renewal_unverified : String
reason_renewal_unverified = "RenewalUnverified"

abbrev pub reason_renewal_not_stored : String
reason_renewal_not_stored = "RenewalNotStored"

abbrev pub reason_self_credential_expiring : String
reason_self_credential_expiring = "SelfCredentialExpiring"

abbrev pub reason_foreign_field_manager : String
reason_foreign_field_manager = "ForeignFieldManager"

abbrev pub reason_adopted_registration : String
reason_adopted_registration = "AdoptedRegistration"

abbrev pub reason_credential_reissued : String
reason_credential_reissued = "CredentialReissued"

abbrev pub reason_identity_restored : String
reason_identity_restored = "IdentityRestored"

abbrev pub reason_renewal_recovered : String
reason_renewal_recovered = "RenewalRecovered"

abbrev pub reason_reconciliation_resumed : String
reason_reconciliation_resumed = "ReconciliationResumed"
