-- ===== src/Ingestion/Intake.antt =====
-- backend/app/services/ingestion/intake.py: `ingest_upload`, the one way from bytes to a job. The
-- state is the table of jobs and the keys of the objects in the store. What the validator, the
-- scanner, the cipher, the store and the database answer in this call is the record `UploadCalls`;
-- a delete that fails raises StorageError and leaves the object. Cancellation is not modelled.
use smart_screen_agent.Prelude.{
  ℕ, ◌≡◌, refl, String, Bool, true, false, Option, none, some, List, [], ◌∷◌, same_text, eq_iff,
  arith, if◌then◌else◌,
}
use smart_screen_agent.Ingestion.Jobs.{
  RawFileReference, IngestionJob, Jobs, Submission, Interference, create_or_reuse,
}

pub record StoredResume : Type 0 where
  pub object_key : String
  pub sha256 : String
  pub size_bytes : ℕ
  pub content_type : String

-- `UploadValidationError` and any other exception.
pub data IntakeError : Type 0 where
  upload_validation broken : IntakeError

pub record UploadCalls : Type 0 where
  pub validate : Option IntakeError
  pub scan : Option IntakeError
  pub encrypt : Option String
  pub store : Option StoredResume
  pub others : Interference
  pub delete_redundant : Bool
  pub commit : Bool
  pub delete_compensating : Bool

-- The arguments that the job takes over.
pub record Request : Type 0 where
  pub source : String
  pub source_external_id : Option String
  pub jd_code : Option String
  pub actor : String
  pub batch_id : Option ℕ
  pub trace_id : Option String

pub record Stores : Type 0 where
  pub jobs : Jobs
  pub objects : List String

pub data Intake : Type 0 where
  accepted : IngestionJob → Bool → Intake
  refused : IntakeError → Intake

abbrev pub remove : String → List String → List String
remove key [] = []
remove key (k ∷ ks) = let rest = remove key ks in if same_text k key then rest else k ∷ rest

abbrev pub delete : Bool → String → List String → List String
delete succeeds key objects = if succeeds then remove key objects else objects

abbrev pub raw_file : StoredResume → String → RawFileReference
raw_file stored cipher = record {
  object_key = stored.object_key;
  sha256 = stored.sha256;
  size_bytes = stored.size_bytes;
  content_type = stored.content_type;
  original_name_cipher = cipher;
}

abbrev pub submission : Request → RawFileReference → Submission
submission r file = record {
  raw_file = file;
  source = r.source;
  source_external_id = r.source_external_id;
  jd_code = r.jd_code;
  actor = r.actor;
  batch_id = r.batch_id;
  trace_id = r.trace_id;
}

-- The exception handler: what this transaction wrote is undone, and the object is deleted if it is
-- still this call's.
abbrev pub compensate : UploadCalls → Bool → String → Jobs → List String → Intake × Stores
compensate x needs_cleanup key jobs objects = (
  refused broken,
  record {
    jobs = jobs;
    objects = if needs_cleanup then delete x.delete_compensating key objects else objects;
  },
)

-- From the answer of `create_or_reuse` on. `before` is the table without this call's row.
unfoldable pub conclude :
    UploadCalls
    → String
    → Jobs
    → List String
    → Option (IngestionJob × Bool) × Jobs
    → Intake × Stores
conclude x key before objects (none, t) = compensate x true key t objects
conclude x key before objects (some (job, true), t) =
    if x.commit
    then (accepted job true, record { jobs = t; objects = objects })
    else compensate x true key before objects
conclude x key before objects (some (job, false), t) =
    if x.delete_redundant
    then (if x.commit
        then (accepted job false, record { jobs = t; objects = remove key objects })
        else compensate x false key t (remove key objects))
    else compensate x true key t objects

-- From the stored object on.
unfoldable pub submit : UploadCalls → Request → ℕ → String → StoredResume → Stores → Intake × Stores
unfolding conclude
submit x r at cipher stored w =
    conclude x stored.object_key (x.others.before_insert w.jobs) (stored.object_key ∷ w.objects)
      (create_or_reuse x.others (submission r (raw_file stored cipher)) at w.jobs)

abbrev store_file :
    UploadCalls → Request → ℕ → Stores → Option String → Option StoredResume → Intake × Stores
store_file x r at w none _ = (refused broken, w)
store_file x r at w (some cipher) none = (refused broken, w)
store_file x r at w (some cipher) (some stored) = submit x r at cipher stored w

abbrev scan_file : UploadCalls → Request → ℕ → Stores → Option IntakeError → Intake × Stores
scan_file x r at w (some e) = (refused e, w)
scan_file x r at w none = store_file x r at w x.encrypt x.store

abbrev validate_file : UploadCalls → Request → ℕ → Stores → Option IntakeError → Intake × Stores
validate_file x r at w (some e) = (refused e, w)
validate_file x r at w none = scan_file x r at w x.scan

unfoldable pub ingest_upload : UploadCalls → Request → ℕ → Stores → Intake × Stores
unfolding submit
ingest_upload x r at w = validate_file x r at w x.validate

-- Which objects are in the store after a call that may have created a job with the object `key`.
abbrev pub Accounted : Option String → List String → Intake × Stores → Type 0
Accounted key objects (refused e, w) = w.objects ≡ objects
Accounted key objects (accepted job false, w) = w.objects ≡ objects
Accounted (some key) objects (accepted job true, w) = w.objects ≡ key ∷ objects
Accounted none objects (accepted job true, w) = ⊥

conclude-Accounted :
    (x : UploadCalls) (key : String) (before : Jobs) (objects : List String)
    (r : Option (IngestionJob × Bool) × Jobs)
    → x.delete_compensating ≡ true
    → remove key objects ≡ objects
    → Accounted (some key) objects (conclude x key before (key ∷ objects) r)
unfolding conclude
conclude-Accounted x key before objects (none, t) works fresh =
    ground (arith, (eq_iff key key).1 refl)
conclude-Accounted x key before objects (some (job, true), t) works fresh =
    ground (arith, (eq_iff key key).1 refl)
conclude-Accounted x key before objects (some (job, false), t) works fresh =
    ground (arith, (eq_iff key key).1 refl)

abbrev pub stored_key : Option StoredResume → Option String
stored_key none = none
stored_key (some s) = some s.object_key

store_file-Accounted :
    (x : UploadCalls) (r : Request) (at : ℕ) (w : Stores) (cipher : Option String)
    (stored : Option StoredResume)
    → x.delete_compensating ≡ true
    → ((s : StoredResume) → stored ≡ some s → remove s.object_key w.objects ≡ w.objects)
    → Accounted (stored_key stored) w.objects (store_file x r at w cipher stored)
unfolding submit
store_file-Accounted x r at w none none works fresh = refl
store_file-Accounted x r at w none (some s) works fresh = refl
store_file-Accounted x r at w (some c) none works fresh = refl
store_file-Accounted x r at w (some c) (some s) works fresh =
    conclude-Accounted x s.object_key (x.others.before_insert w.jobs) w.objects
      (create_or_reuse x.others (submission r (raw_file s c)) at w.jobs) works (fresh s refl)

scan_file-Accounted :
    (x : UploadCalls) (r : Request) (at : ℕ) (w : Stores) (answer : Option IntakeError)
    → x.delete_compensating ≡ true
    → ((s : StoredResume) → x.store ≡ some s → remove s.object_key w.objects ≡ w.objects)
    → Accounted (stored_key x.store) w.objects (scan_file x r at w answer)
scan_file-Accounted x r at w (some e) works fresh = refl
scan_file-Accounted x r at w none works fresh =
    store_file-Accounted x r at w x.encrypt x.store works fresh

validate_file-Accounted :
    (x : UploadCalls) (r : Request) (at : ℕ) (w : Stores) (answer : Option IntakeError)
    → x.delete_compensating ≡ true
    → ((s : StoredResume) → x.store ≡ some s → remove s.object_key w.objects ≡ w.objects)
    → Accounted (stored_key x.store) w.objects (validate_file x r at w answer)
validate_file-Accounted x r at w (some e) works fresh = refl
validate_file-Accounted x r at w none works fresh = scan_file-Accounted x r at w x.scan works fresh

-- Where the store's keys are fresh and the compensating delete works, an upload leaves exactly one
-- new object if it created a job, the object of that file, and none if it reused a job or raised.
pub ingest_upload-Accounted :
    (x : UploadCalls) (r : Request) (at : ℕ) (w : Stores)
    → x.delete_compensating ≡ true
    → ((s : StoredResume) → x.store ≡ some s → remove s.object_key w.objects ≡ w.objects)
    → Accounted (stored_key x.store) w.objects (ingest_upload x r at w)
unfolding ingest_upload
ingest_upload-Accounted x r at w works fresh =
    validate_file-Accounted x r at w x.validate works fresh
