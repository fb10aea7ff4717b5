-- ===== src/Common/HttpLogger.antt =====
-- src/common/middleware/http-logger.middleware.ts: what is logged of one request, whose response
-- fires 'finish' and 'close' in any order and number. The texts of the entries are not modelled.
use async_long_request_proxy.Prelude.{
  ℕ, ◌≤◌, ◌≡◌, refl, Bool, true, false, not, List, [], ◌∷◌, ◌++◌, length, leb, arith, if◌then◌else◌,
}

pub data Entry : Type 0 where
  error_entry warn_entry log_entry : Entry
  aborted_entry : Entry

-- An event of the response, with its status code or with `writableEnded` at that moment.
pub data ResponseEvent : Type 0 where
  finish : ℕ → ResponseEvent
  close : Bool → ResponseEvent

pub record RequestLog : Type 0 where
  pub is_logged : Bool
  pub entries : List Entry

abbrev pub no_entries : RequestLog
no_entries = record { is_logged = false; entries = [] }

unfoldable pub write_log : ℕ → Entry
write_log status_code =
    if leb 500 status_code
    then error_entry
    else if leb 400 status_code
    then warn_entry
    else log_entry

unfoldable pub log_request : Entry → RequestLog → RequestLog
log_request e r =
    if r.is_logged then r else record { is_logged = true; entries = r.entries ++ e ∷ [] }

unfoldable pub on_response : ResponseEvent → RequestLog → RequestLog
on_response (finish status_code) r = log_request (write_log status_code) r
on_response (close writable_ended) r = if not writable_ended then log_request aborted_entry r else r

unfoldable pub on_responses : List ResponseEvent → RequestLog → RequestLog
on_responses [] r = r
on_responses (e ∷ es) r = on_responses es (on_response e r)

-- The entry of the first event that is logged.
unfoldable pub first_entry : List ResponseEvent → List Entry
first_entry [] = []
first_entry (finish status_code ∷ es) = write_log status_code ∷ []
first_entry (close writable_ended ∷ es) =
    let rest = first_entry es in if writable_ended then rest else aborted_entry ∷ []

logged_stays :
    (es : List ResponseEvent) (xs : List Entry)
    → on_responses es (record { is_logged = true; entries = xs })
      ≡ record { is_logged = true; entries = xs }
unfolding on_responses on_response log_request
logged_stays [] xs = refl
logged_stays (finish status_code ∷ es) xs = logged_stays es xs
logged_stays (close true ∷ es) xs = logged_stays es xs
logged_stays (close false ∷ es) xs = logged_stays es xs

-- Whatever events the response fires, in whatever order, at most one entry is written: that of the
-- first event that is either 'finish', with its status, or a 'close' before the end of the
-- response.
pub on_responses_lem :
    (es : List ResponseEvent)
    → ((on_responses es no_entries).entries ≡ first_entry es)
      × (length (on_responses es no_entries).entries ≤ 1)
unfolding on_responses on_response log_request first_entry
on_responses_lem [] = (refl, omega arith)
on_responses_lem (finish status_code ∷ es) =
    rw (logged_stays es (write_log status_code ∷ [])) (refl, omega arith)
on_responses_lem (close true ∷ es) = on_responses_lem es
on_responses_lem (close false ∷ es) = rw (logged_stays es (aborted_entry ∷ [])) (refl, omega arith)
