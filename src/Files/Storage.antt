-- ===== src/Files/Storage.antt =====
-- The object store and the malware scanner as the services see them: backend/src/files/storage/
-- file-storage.types.ts and backend/src/files/malware/malware-scanner.types.ts. An answer that may
-- reject is an option or a test; which calls change the store is recorded with the files.
use shipflow.Common.{ℕ, Bool, Option, List, String, Result}
use shipflow.Files.Model.{FileStorageProvider, ObjectKey}

pub data LifecycleState : Type 0 where
  pending scanning ready deleted rejected : LifecycleState

pub data SignedAction : Type 0 where
  upload download : SignedAction

pub record StoredObject : Type 0 where
  pub body : List ℕ
  pub content_type : Option String

pub record StoredObjectReference : Type 0 where
  pub key : ObjectKey
  pub last_modified : Option ℕ

-- What the store answers during a call: `none` and `false` stand for a rejected promise.
pub record ObjectStorageProvider : Type 0 where
  pub provider : FileStorageProvider
  pub create_upload_target : ObjectKey → ℕ → Option String
  pub verify_local_signature : SignedAction → ObjectKey → ℕ → String → Bool
  pub put_object : ObjectKey → List ℕ → Bool
  pub inspect_object : ObjectKey → Option StoredObject
  pub create_download_target : ObjectKey → String → String → Option String
  pub delete_object : ObjectKey → Bool
  pub list_objects : Option (List StoredObjectReference)
  pub set_lifecycle_state : ObjectKey → LifecycleState → Bool

pub data MalwareScanResult : Type 0 where
  clean infected unsupported failed : MalwareScanResult

pub record MalwareScanner : Type 0 where
  pub enabled : Bool
  pub scan : List ℕ → Option MalwareScanResult

-- `FileValidationService`: the name and type that a declaration is accepted with, and the type
-- that the content of an object is accepted as.
pub record Declaration : Type 0 where
  pub file_name : String
  pub mime_type : String

pub record Validation : Type 0 where
  pub validate_declaration : String → String → ℕ → Result Declaration
  pub validate_object : List ℕ → String → String → ℕ → String → Result String
