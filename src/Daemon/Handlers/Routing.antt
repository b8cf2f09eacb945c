-- ===== src/Daemon/Handlers/Routing.antt =====
-- How the tables of the dispatcher route events, the interrupts of the simulator among them, and
-- on which payloads nothing is raised.

use fansly_scraper.Common.{
  ap, is_some, all, not, any, ℕ, ◌≡◌, refl, inl, inr, Bool, true, false, some, List, [], ◌∷◌, arith,
  All, Option-cases,
}
use fansly_scraper.Common.Dict.{get, get-All}
use fansly_scraper.Helpers.Json.{Value, arr, obj, Items, Fields, items, field_or_null}
use fansly_scraper.Helpers.Json.Finite.{
  has_no_infinity, fields_no_infinity, safe_int-field, object-no_infinity, items_no_infinity,
}
use fansly_scraper.Daemon.Handlers.Tables.{Key, event_keyed, key_beq_iff, noop_keys, gathering_keys}
use fansly_scraper.Daemon.Handlers.{
  Handled, with_object, with_items, handle_new_message, handle_subscription_event,
  handle_ppv_purchase, raw_ids, handle_message_deleted, handle_new_follow,
  handle_account_profile_updated, handle_wallet_event, handle_wallet_transaction, Handler,
  has_handler, dispatch_table, run_handler, dispatch_ws_event,
}
use fansly_scraper.Daemon.Handlers.Requests.{coerce_ids_lem}
use fansly_scraper.Helpers.Result.{raises}
use fansly_scraper.Daemon.Simulator.{is_interrupt, interrupt_events, same_event}
use fansly_scraper.Daemon.Handlers.Tables.{mem-all}
use fansly_scraper.Daemon.Handlers.Complete.{ids-not_infinity, raw_ids-no_infinity}

-- in `_DISPATCH`
abbrev pub is_dispatched : Key → Bool
is_dispatched k = is_some (get dispatch_table k)

undispatched : Key → Bool
undispatched k = not (is_dispatched k)

noop_undispatched : all undispatched noop_keys ≡ true
unfolding undispatched get
noop_undispatched = refl

gathering_undispatched : all undispatched gathering_keys ≡ true
unfolding undispatched get
gathering_undispatched = refl

-- The pairs that are declared no-ops, and those that are still being classified, have no handler,
-- so the order in which the tables are looked up does not matter: for every event the dispatcher
-- runs the handler of the dispatch table, and returns None for a pair that is not in it.
pub dispatch-eq-lookup :
    (service_id event_type : ℕ) (event : Fields)
    → dispatch_ws_event service_id event_type event
      ≡ run_handler (get dispatch_table (service_id, event_type)) event
unfolding dispatch_ws_event undispatched
dispatch-eq-lookup svc ty event = ground (
  arith,
  mem-all undispatched noop_keys (svc, ty) noop_undispatched,
  mem-all undispatched gathering_keys (svc, ty) gathering_undispatched,
)

-- the lookup of `on_ws_event_during_hidden`, as a test on a list
pub any-all :
    (p : Key → Bool) (ks : List Key) (k : Key)
    → all p ks ≡ true
    → any (same_event k) ks ≡ true
    → p k ≡ true
any-all p [] k h m = cc
any-all p (j ∷ js) k h m = ground (arith, key_beq_iff k j, any-all p js k)

interrupts_dispatched : all is_dispatched interrupt_events ≡ true
unfolding get
interrupts_dispatched = refl

-- Every event that wakes the hidden simulator has a handler in the dispatch table, is known to
-- `has_handler`, and is routed to that handler.
pub interrupt_dispatched :
    (service_id event_type : ℕ) (event : Fields)
    → is_interrupt service_id event_type ≡ true
    → (handler : Handler) × (get dispatch_table (service_id, event_type) ≡ some handler)
      × (has_handler service_id event_type ≡ true)
      × (dispatch_ws_event service_id event_type event ≡ handler event)
unfolding is_interrupt has_handler
interrupt_dispatched svc ty event h =
    let known = any-all is_dispatched interrupt_events (svc, ty) interrupts_dispatched h in
    elim (Option-cases (get dispatch_table (svc, ty))) [
      | inl e ↦ absurd (ground arith)
      | inr (handler, e) ↦
          (handler, e, ground arith, rw dispatch-eq-lookup (ap (λ o. run_handler o event) e))
    ]

with_object-returns :
    (v : Value) (f : Fields → Handled)
    → ((fs : Fields) → v ≡ obj fs → raises (f fs) ≡ false)
    → raises (with_object v f) ≡ false
with_object-returns (obj fs) f h = h fs refl
with_object-returns _ f h = refl

with_items-returns :
    (v : Value) (f : List Value → Handled)
    → ((vs : Items) → v ≡ arr vs → raises (f (items vs)) ≡ false)
    → raises (with_items v f) ≡ false
with_items-returns (arr vs) f h = h vs refl
with_items-returns _ f h = refl

module _ (event : Fields) (fin : fields_no_infinity event ≡ true) where
  message_returns : raises (handle_new_message event) ≡ false
  unfolding handle_new_message
  message_returns = with_object-returns (field_or_null event "message") _ λ m e.
      let fin_m = object-no_infinity event m "message" fin e in
      ground (arith, safe_int-field m "groupId" fin_m, safe_int-field m "senderId" fin_m)

  subscription_returns : raises (handle_subscription_event event) ≡ false
  unfolding handle_subscription_event
  subscription_returns = with_object-returns (field_or_null event "subscription") _ λ s e.
      let fin_s = object-no_infinity event s "subscription" fin e in
      ground (arith, safe_int-field s "accountId" fin_s)

  ppv_returns : raises (handle_ppv_purchase event) ≡ false
  unfolding handle_ppv_purchase
  ppv_returns = with_object-returns (field_or_null event "order") _ λ o e.
      let fin_o = object-no_infinity event o "order" fin e in
      ground (
        arith,
        safe_int-field o "correlationAccountId" fin_o,
        safe_int-field o "accountMediaId" fin_o,
        safe_int-field o "accountMediaBundleId" fin_o,
      )

  follow_returns : raises (handle_new_follow event) ≡ false
  unfolding handle_new_follow
  follow_returns = with_object-returns (field_or_null event "follow") _ λ f e.
      let fin_f = object-no_infinity event f "follow" fin e in
      ground (arith, safe_int-field f "accountId" fin_f)

  profile_returns : raises (handle_account_profile_updated event) ≡ false
  unfolding handle_account_profile_updated
  profile_returns = with_object-returns (field_or_null event "account") _ λ a e.
      let fin_a = object-no_infinity event a "account" fin e in
      ground (arith, safe_int-field a "id" fin_a)

  deleted_returns : raises (handle_message_deleted event) ≡ false
  unfolding handle_message_deleted has_no_infinity
  deleted_returns = with_object-returns (field_or_null event "message") _ λ m e.
      let fin_m = object-no_infinity event m "message" fin e in
      with_items-returns (raw_ids m) _ λ vs e'.
        let fin_raws : items_no_infinity vs ≡ true = rw e' at (raw_ids-no_infinity m fin_m) in
        ground (
          arith,
          coerce_ids_lem (items vs),
          ids-not_infinity vs fin_raws,
          safe_int-field m "id" fin_m,
          safe_int-field m "deletedAt" fin_m,
        )

  handlers_return : All (λ (entry : Key × Handler). raises (entry.1 event) ≡ false) dispatch_table
  unfolding handle_wallet_event handle_wallet_transaction
  handlers_return = (
    message_returns,
    (
      deleted_returns,
      (
        subscription_returns,
        (
          ppv_returns,
          (ppv_returns, (follow_returns, (refl, (refl, (profile_returns, (ppv_returns, tt)))))),
        ),
      ),
    ),
  )

-- Whatever the event, the dispatcher raises nothing if the payload holds no infinite number.
pub dispatch_returns :
    (service_id event_type : ℕ) (event : Fields)
    → fields_no_infinity event ≡ true
    → raises (dispatch_ws_event service_id event_type event) ≡ false
dispatch_returns svc ty event fin = elim (Option-cases (get dispatch_table (svc, ty))) [
  | inl e ↦ rw (dispatch-eq-lookup, e)
  | inr (handler, e) ↦
      rw (dispatch-eq-lookup, e)
        (get-All (λ entry. raises (entry.1 event) ≡ false) dispatch_table (svc, ty) handler
          (handlers_return event fin) e)
]
