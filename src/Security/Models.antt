-- ===== src/Security/Models.antt =====
-- backend/app/security/models.py. A datetime is a number of microseconds.
use ai_employee_os.Common.{ℕ, String, ◌<>◌, Bool, true, false, Option, List}
use ai_employee_os.Common.Json.{Fields, Uuid}

pub data ApiKeyStatus : Type 0 where
  active revoked : ApiKeyStatus

abbrev pub is_active : ApiKeyStatus → Bool
is_active ApiKeyStatus.active = true
is_active ApiKeyStatus.revoked = false

pub data Role : Type 0 where
  admin user service : Role

pub record Permission : Type 0 where
  pub resource : String
  pub action : String

abbrev pub permission_code : Permission → String
permission_code p = p.resource <> ":" <> p.action

pub record ApiKey : Type 0 where
  pub id : Uuid
  pub name : String
  pub key_hash : String
  pub status : ApiKeyStatus
  pub role : Role
  pub permissions : List String
  pub created_at : ℕ
  pub last_used_at : Option ℕ
  pub metadata : Fields

-- Holds the raw key, and is returned once.
pub record ApiKeyCreateResult : Type 0 where
  pub id : Uuid
  pub name : String
  pub api_key : String
  pub status : ApiKeyStatus
  pub role : Role
  pub permissions : List String
  pub created_at : ℕ
  pub metadata : Fields

pub record ApiKeyInfo : Type 0 where
  pub id : Uuid
  pub name : String
  pub status : ApiKeyStatus
  pub role : Role
  pub permissions : List String
  pub created_at : ℕ
  pub last_used_at : Option ℕ
  pub metadata : Fields

pub record AuditEvent : Type 0 where
  pub id : Uuid
  pub actor : String
  pub action : String
  pub resource : String
  pub timestamp : ℕ
  pub trace_id : String
  pub metadata : Fields

pub record SecurityPrincipal : Type 0 where
  pub actor : String
  pub api_key_id : Option Uuid
  pub role : Role
  pub permissions : List String
