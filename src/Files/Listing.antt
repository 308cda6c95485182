-- ===== src/Files/Listing.antt =====
-- The readers of backend/src/files/files.service.ts: the list of files, one file, and the usage.
use shipflow.Common.{
  ℕ, ◌+◌, ◌-◌, ◌*◌, ◌/◌, ltb, ◌==◌, Bool, ◌&&◌, ◌||◌, if◌then◌else◌, Option, none, some, List, map,
  take, drop, Action, pure, ◌>>=◌,
}
use shipflow.Database.{find_many, count, sum_of}
use shipflow.Database.Ordering.{order_by}
use shipflow.Files.{
  FileStatus, StoredFile, is_pending, is_scanning, is_ready, same_status, PlanCode,
  file_plan_quotas, holds_space, Store, find_scoped_file, FileResponse, map_file,
}

-- `FileListQueryDto`
pub record FileListQuery : Type 0 where
  pub page : ℕ
  pub limit : ℕ
  pub status : Option FileStatus

pub record FilePaginationMeta : Type 0 where
  pub page : ℕ
  pub limit : ℕ
  pub total : ℕ
  pub total_pages : ℕ

pub record FileListResponse : Type 0 where
  pub items : List FileResponse
  pub pagination : FilePaginationMeta

pub record FileUsageResponse : Type 0 where
  pub used_bytes : ℕ
  pub max_bytes : ℕ
  pub used_files : ℕ
  pub max_files : ℕ

-- `query.status ?? { in: [PENDING, SCANNING, READY] }`
abbrev pub is_listed : Option FileStatus → FileStatus → Bool
is_listed none status = is_pending status || is_scanning status || is_ready status
is_listed (some asked) status = same_status status asked

-- The test of `listFiles`.
abbrev pub list_where : ℕ → Option FileStatus → StoredFile → Bool
list_where organization asked f = f.organization_id == organization && is_listed asked f.status

-- `[{ createdAt: 'desc' }, { id: 'desc' }]`
abbrev pub is_newer : StoredFile → StoredFile → Bool
is_newer f g = ltb g.created_at f.created_at || (f.created_at == g.created_at && ltb g.id f.id)

-- `listFiles`; a page and a limit are at least one.
unfoldable pub list_files : ℕ → FileListQuery → Store → FileListResponse
list_files organization query s =
    let total = count (list_where organization query.status) s.files in
    record {
      items = map map_file (
          take query.limit (
            drop ((query.page - 1) * query.limit)
              (order_by is_newer (find_many (list_where organization query.status) s.files))));
      pagination = record {
        page = query.page;
        limit = query.limit;
        total = total;
        total_pages = if total == 0 then 0 else (total + query.limit - 1) / query.limit;
      };
    }

unfoldable pub get_file : ℕ → ℕ → Action Store FileResponse
get_file organization id = do file ← find_scoped_file organization id; pure (map_file file)

-- `getUsage`; `plan` is the plan of the organization's billing snapshot.
unfoldable pub get_usage : ℕ → PlanCode → ℕ → Store → FileUsageResponse
get_usage organization plan now s = record {
  used_bytes = sum_of (λ f. f.size_bytes) (holds_space organization now) s.files;
  max_bytes = (file_plan_quotas plan).max_bytes;
  used_files = count (holds_space organization now) s.files;
  max_files = (file_plan_quotas plan).max_files;
}
