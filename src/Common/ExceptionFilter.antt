-- ===== src/Common/ExceptionFilter.antt =====
-- src/common/exceptions/zod-exception.filter.ts: the answer to an exception. A path's numbers are
-- given as their decimal texts.
pub mod Distinct
pub mod Answer
use Prim.Native.String.{◌++◌}
use async_long_request_proxy.Prelude.{
  ℕ, String, Bool, true, false, not, Option, none, some, List, [], ◌∷◌, ◌==◌, any, leb,
  if◌then◌else◌,
}

-- RawZodIssue, with the issues of each branch of a union.
mutual
  pub data RawZodIssue : Type 0 where
    raw_issue : (code : String) (path : List String) (message : String) → RawErrors → RawZodIssue

  pub data RawErrors : Type 0 where
    no_errors : RawErrors
    errors : RawBranches → RawErrors

  pub data RawBranches : Type 0 where
    raw_branches_end : RawBranches
    raw_branch : RawBranch → RawBranches → RawBranches

  pub data RawBranch : Type 0 where
    raw_branch_end : RawBranch
    raw_also : RawZodIssue → RawBranch → RawBranch

-- ValidationIssue
mutual
  pub data ValidationIssue : Type 0 where
    validation_issue : (field message code : String) → UnionErrors → ValidationIssue

  pub data UnionErrors : Type 0 where
    no_union : UnionErrors
    union_errors : Branches → UnionErrors

  pub data Branches : Type 0 where
    branches_end : Branches
    branch : Branch → Branches → Branches

  pub data Branch : Type 0 where
    branch_end : Branch
    also : ValidationIssue → Branch → Branch

-- issue.path.join('.')
unfoldable pub join_path : String → List String → String
join_path s [] = s
join_path s (t ∷ ts) = s ++ ("." ++ join_path t ts)

abbrev pub field_of : List String → String
field_of [] = "(root)"
field_of (s ∷ ss) = join_path s ss

abbrev pub issue_key : ValidationIssue → String
issue_key (validation_issue field message code u) = field ++ ("|" ++ (code ++ ("|" ++ message)))

-- The `filter` of one branch, with the set `seen` before and after it.
unfoldable pub keep_new : List String → Branch → Branch × List String
keep_new seen branch_end = (branch_end, seen)
keep_new seen (also i b) =
    let key = issue_key i in
    let is_new = not (any (λ k. key == k) seen) in
    let (kept, seen') = keep_new (if is_new then key ∷ seen else seen) b in
    (if is_new then also i kept else kept, seen')

unfoldable pub keep_new_all : List String → Branches → Branches
keep_new_all seen branches_end = branches_end
keep_new_all seen (branch b bs) =
    let (kept, seen') = keep_new seen b in branch kept (keep_new_all seen' bs)

-- filter((branch) => branch.length > 0)
unfoldable pub drop_empty : Branches → Branches
drop_empty branches_end = branches_end
drop_empty (branch branch_end bs) = drop_empty bs
drop_empty (branch (also i b) bs) = branch (also i b) (drop_empty bs)

unfoldable pub deduplicate : Branches → Branches
deduplicate bs = drop_empty (keep_new_all [] bs)

unfoldable mutual
  pub format_issue : RawZodIssue → ValidationIssue
  format_issue (raw_issue code path message es) =
      validation_issue (field_of path) message code (format_errors (code == "invalid_union") es)

  pub format_errors : Bool → RawErrors → UnionErrors
  format_errors is_union no_errors = no_union
  format_errors true (errors bs) = union_errors (deduplicate (format_branches bs))
  format_errors false (errors bs) = no_union

  pub format_branches : RawBranches → Branches
  format_branches raw_branches_end = branches_end
  format_branches (raw_branch b bs) = branch (format_branch b) (format_branches bs)

  pub format_branch : RawBranch → Branch
  format_branch raw_branch_end = branch_end
  format_branch (raw_also i b) = also (format_issue i) (format_branch b)

-- What is thrown: an HttpException with its status, its own message and that of its response, a
-- ZodError, or anything else.
pub data Exception : Type 0 where
  http_exception : ℕ → String → Option String → Exception
  zod_error : RawBranch → Exception
  other : Exception

pub record Resolved : Type 0 where
  pub status : ℕ
  pub message : String
  pub issues : Option Branch

unfoldable pub resolve_exception : Exception → Resolved
resolve_exception (http_exception status message none) = record {
  status = status;
  message = message;
  issues = none;
}
resolve_exception (http_exception status message (some m)) = record {
  status = status;
  message = m;
  issues = none;
}
resolve_exception (zod_error issues) = record {
  status = 400;
  message = "Validation failed";
  issues = some (format_branch issues);
}
resolve_exception other = record { status = 500; message = "Internal server error"; issues = none }

pub data Level : Type 0 where
  error warn log : Level

-- How an answer is logged.
unfoldable pub level_of : ℕ → Level
level_of status = if leb 500 status then error else warn
