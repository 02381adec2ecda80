-- ===== src/Httpmid/Logging.antt =====
-- What the access log says of a request, and what it does not.
use strava_auth_proxy.Prelude.{
  ℕ, ◌≡◌, refl, ap, ◌∙◌, false, Option, none, some, List, [], ◌∷◌, leb, is_empty, if◌then◌else◌,
}
use strava_auth_proxy.Go.Text.{Str, str, ◌==◌}
use strava_auth_proxy.Go.Http.{Request}
use strava_auth_proxy.Exchange.{Attr, text, number, duration, texts, seal_error, warn, info}
use strava_auth_proxy.Httpmid.{
  Call, Action, call, publish, Wire, new_wire, Recorder, new_recorder, Served, Observed, published,
  observe, recorder_step, log_record, access_log, safe_path,
}
use strava_auth_proxy.Httpmid.Recording.{
  IsOrderly, IsAccurate, run_recorder, run_wire, status_of, run_recorder-IsAccurate,
  run_recorder-wire,
}

abbrev pub calls_of : List Action → List Call
calls_of [] = []
calls_of (call c ∷ actions) = c ∷ calls_of actions
calls_of (publish id ∷ actions) = calls_of actions

recorder-observe :
    (actions : List Action) (o : Observed)
    → (observe actions o).recorder ≡ run_recorder (calls_of actions) o.recorder
unfolding observe
recorder-observe [] o = refl
recorder-observe (call c ∷ actions) o =
    recorder-observe actions (record o { recorder = recorder_step c o.recorder })
recorder-observe (publish id ∷ actions) o =
    recorder-observe actions (record o { client_id = published id o.client_id })

-- The log does not come between a handler and the server: what reaches the server's writer is what
-- the handler's calls do to it without the log.
pub access_log-wire :
    (next : Request → Served) (r : Request) (w : Wire)
    → (access_log next r w).1 ≡ run_wire (calls_of (next r).actions) w
unfolding access_log
access_log-wire next r w =
    ap (λ (rec : Recorder). rec.wire)
      (recorder-observe (next r).actions (record { recorder = new_recorder w; client_id = [] }))
    ∙ run_recorder-wire (calls_of (next r).actions) (new_recorder w)

-- The number of an attribute, by its name.
abbrev pub number_of : Str → List Attr → Option ℕ
number_of name [] = none
number_of name (number k n ∷ attrs) = if k == name then some n else number_of name attrs
number_of name (text k v ∷ attrs) = number_of name attrs
number_of name (duration k d ∷ attrs) = number_of name attrs
number_of name (texts k vs ∷ attrs) = number_of name attrs
number_of name (seal_error e ∷ attrs) = number_of name attrs

log_record_numbers :
    (r : Request) (served : Served) (o : Observed)
    → (number_of (str "status") (log_record r served o).attrs ≡ some o.recorder.status)
      × (number_of (str "bytes") (log_record r served o).attrs ≡ some o.recorder.bytes)
unfolding log_record ◌==◌
log_record_numbers r served o = (refl, refl)

level-log_record :
    (r : Request) (served : Served) (o : Observed)
    → (log_record r served o).level ≡ (if leb 500 o.recorder.status then warn else info)
unfolding log_record
level-log_record r served o = refl

-- If the handler does not switch protocols and flushes only after a header or a write, then the log
-- tells the status that was sent, 200 if there was none, and the number of body bytes that were
-- accepted, and it warns exactly from status 500 on.
pub access_log_accurate :
    (next : Request → Served) (r : Request)
    → IsOrderly false (calls_of (next r).actions)
    → let (entry, w) = access_log next r new_wire in
      (number_of (str "status") entry.attrs ≡ some (status_of w))
      × (number_of (str "bytes") entry.attrs ≡ some w.bytes)
      × (entry.level ≡ (if leb 500 (status_of w) then warn else info))
unfolding access_log
access_log_accurate next r orderly =
    let o =
      observe (next r).actions (record { recorder = new_recorder new_wire; client_id = [] }) in
    let same : o.recorder ≡ run_recorder (calls_of (next r).actions) (new_recorder new_wire) =
      recorder-observe (next r).actions
        (record { recorder = new_recorder new_wire; client_id = [] }) in
    let h : IsAccurate o.recorder = rw same (
      run_recorder-IsAccurate (calls_of (next r).actions) (new_recorder new_wire) orderly
        (record { status = refl; bytes = refl; wrote = refl })) in
    (
      (log_record_numbers r (next r) o).0 ∙ ap some h.status,
      (log_record_numbers r (next r) o).1 ∙ ap some h.bytes,
      level-log_record r (next r) o ∙ ap (λ (n : ℕ). if leb 500 n then warn else info) h.status,
    )

-- The record of a request depends on its method and path, on whether it has a query, and on what
-- the handler does: it is the same for every other query, header, cookie and body.
pub access_log_redacts :
    (next : Request → Served) (r r' : Request) (w : Wire)
    → r.method ≡ r'.method
    → r.path ≡ r'.path
    → is_empty r.raw_query ≡ is_empty r'.raw_query
    → next r ≡ next r'
    → (access_log next r w).0 ≡ (access_log next r' w).0
unfolding access_log log_record safe_path
access_log_redacts next r r' w method path query served = rw (served, method, path, query) refl
