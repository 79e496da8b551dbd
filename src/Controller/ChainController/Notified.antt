-- ===== src/Controller/ChainController/Notified.antt =====
-- pkg/controller/networkchaining/networkchaining_controller.go: the notifications of a chain, and the
-- state that is written behind them.
use icn_nodus.Common.{if◌then◌else◌, String, ◌≡◌, ◌∙◌, true, false, Option, none, some, List, ◌==◌}
use icn_nodus.Api.{
  NetworkChaining, RoutingInfo, PodNetworkInfo, network_chaining, created, deleted,
  create_internal_error, delete_internal_error,
}
use icn_nodus.Effect.{Error, update_status, Env, World, done, M, ◌>>=◌, pure, attempt}
use icn_nodus.Effect.Inverse.{>>=-done}
use icn_nodus.Notify.{send_delete_route_notif, send_delete_pod_network_notif}
use icn_nodus.Controller.Writing.{logged, attempt-write-then}
use icn_nodus.Controller.ChainController.{with_state, save_status, state_of, notify, delete_chain}
use icn_nodus.Chain.Calculation.{calculate_routes}

module _ (routes pods : M (Unit {0})) (cr : NetworkChaining) (env : Env) (w : World) where
  -- The end of `notify`, from the outcome of the first notification.
  abbrev pub after_first : String → String → Option Error → M NetworkChaining
  after_first good bad o =
      let cr' = with_state cr (state_of good bad o) in
      if cr'.state == create_internal_error
      then pure cr'
      else (attempt pods >>= λ e. pure (with_state cr' (state_of good bad e)))

  module _ (u : World) where
    notify-first :
        (good bad : String) (o : Option Error)
        → attempt routes env w ≡ done o u
        → notify routes pods good bad cr env w ≡ after_first good bad o env u
    unfolding notify
    notify-first good bad o e = >>=-done (attempt routes) (after_first good bad) env w u o e

    notify-second :
        (good bad : String) (cr' : NetworkChaining) (o : Option Error) (v : World)
        → attempt pods env u ≡ done o v
        → (attempt pods >>= λ e. pure (with_state cr' (state_of good bad e))) env u
          ≡ done (with_state cr' (state_of good bad o)) v
    unfolding pure
    notify-second good bad cr' o v e = >>=-done (attempt pods) _ env u v o e

    -- On a deletion the outcome of the first notification does not matter.
    pub notify_deletion :
        (r o : Option Error) (v : World)
        → attempt routes env w ≡ done r u
        → attempt pods env u ≡ done o v
        → notify routes pods deleted delete_internal_error cr env w
          ≡ done (with_state cr (state_of deleted delete_internal_error o)) v
    notify_deletion none o v e f =
        notify-first deleted delete_internal_error none e
        ∙ notify-second deleted delete_internal_error (with_state cr deleted) o v f
    notify_deletion (some x) o v e f =
        notify-first deleted delete_internal_error (some x) e
        ∙ notify-second deleted delete_internal_error (with_state cr delete_internal_error) o v f

    pub notify_creation_refused :
        (x : Error)
        → attempt routes env w ≡ done (some x) u
        → notify routes pods created create_internal_error cr env w
          ≡ done (with_state cr create_internal_error) u
    unfolding pure
    notify_creation_refused x e = notify-first created create_internal_error (some x) e

    pub notify_creation_accepted :
        (o : Option Error) (v : World)
        → attempt routes env w ≡ done none u
        → attempt pods env u ≡ done o v
        → notify routes pods created create_internal_error cr env w
          ≡ done (with_state cr (state_of created create_internal_error o)) v
    notify_creation_accepted o v e f =
        notify-first created create_internal_error none e
        ∙ notify-second created create_internal_error (with_state cr created) o v f

save_status-attempt :
    (cr : NetworkChaining) (env : Env) (w : World)
    → attempt (save_status cr) env w
      ≡ done
          (env.written w.trace (update_status (network_chaining cr)))
          (logged (update_status (network_chaining cr)) w)
unfolding save_status
save_status-attempt cr env w = attempt-write-then (update_status (network_chaining cr)) cr env w

-- If the routes of a chain are calculated, then its deletion sends both notifications, and the state that
-- it writes depends on the outcome of the second alone: Deleted where it was sent, even if the routes
-- were not, and DeleteInternalError where it was not. The outcome of the first does not matter.
pub delete_chain-unreported :
    (cr : NetworkChaining) (env : Env) (w u u' v : World) (pods : List PodNetworkInfo)
    (routes : List RoutingInfo) (first second : Option Error)
    → (cr.state == deleted) ≡ false
    → (cr.chain_type == "Routing") ≡ true
    → calculate_routes cr true false env w ≡ done (pods, routes) u
    → attempt (send_delete_route_notif routes "delete") env u ≡ done first u'
    → attempt (send_delete_pod_network_notif pods "delete") env u' ≡ done second v
    → let sent = with_state cr (state_of deleted delete_internal_error second) in
      delete_chain cr env w
      ≡ done
          (sent, env.written v.trace (update_status (network_chaining sent)))
          (logged (update_status (network_chaining sent)) v)
unfolding delete_chain pure
delete_chain-unreported cr env w u u' v pods routes first second s t e f g =
    let sent = with_state cr (state_of deleted delete_internal_error second) in
    let told = send_delete_route_notif routes "delete" in
    let told' = send_delete_pod_network_notif pods "delete" in
    rw (s, t)
      (>>=-done (calculate_routes cr true false) _ env w u (pods, routes) e
        ∙ >>=-done (notify told told' deleted delete_internal_error cr) _ env u v sent
            (notify_deletion told told' cr env u u' first second v f g)
        ∙ >>=-done (attempt (save_status sent)) _ env v _ _ (save_status-attempt sent env v))
