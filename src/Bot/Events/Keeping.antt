-- ===== src/Bot/Events/Keeping.antt =====
-- That the visit of an event leaves the queue of responses alone.
use tillerinobot.Prelude.{ℕ, List, codes}
use tillerinobot.Exceptions.{is_timeout}
use tillerinobot.Chat.Response.{Response}
use tillerinobot.Chat.Event.{GameChatEvent, Kind, private_message, private_action, joined, sighted}
use tillerinobot.Prelude.{Option, none, some}
use tillerinobot.Bot.{ApiUser, M, UserData, Services}
use tillerinobot.Bot.Messages.Keeping.{
  Keeps, KeepsQueue, pure-Keeps, bind-Keeps, catch-Keeps, if-Keeps, option-Keeps,
  with_user_data-Keeps, handle_exception-Keeps, check_version_info-Keeps,
  process_private_message-Keeps, process_private_action-Keeps,
}
use tillerinobot.Bot.Events.{
  found_in_time, with_update, welcome_donator, welcome_user, welcome_id, welcome_if_donator,
  is_caught_joined, is_exception, visit_kind, visit, note_user, register_activity,
}

module _ {W : Type 0} (services : Services W) (k : KeepsQueue services) where
  found_in_time-Keeps :
      {A : Type 0} (m : M W (Option A)) → Keeps m → Keeps (found_in_time services m)
  unfolding found_in_time
  found_in_time-Keeps m h = catch-Keeps is_timeout m _ h (λ e. pure-Keeps)

  with_update-Keeps :
      (u : ApiUser) (d : UserData W) (welcome : Response) → Keeps (with_update services u d welcome)
  unfolding with_update
  with_update-Keeps u d welcome =
      if-Keeps _ _ _ (bind-Keeps _ _ (k.getting_update u.user_id) (λ r. pure-Keeps)) pure-Keeps

  welcome_donator-Keeps :
      (nick : List ℕ) (now : ℕ) (u : ApiUser) (d : UserData W)
      → Keeps d.language
      → Keeps (welcome_donator services nick now u d)
  unfolding welcome_donator
  welcome_donator-Keeps nick now u d l = if-Keeps _ _ _ pure-Keeps (
      bind-Keeps _ _ (k.reading_activity u) (λ last. bind-Keeps _ _ l (λ lang.
        bind-Keeps _ _ (with_update-Keeps u d _) (λ welcome.
          bind-Keeps _ _ (check_version_info-Keeps services k nick) (λ r. pure-Keeps)))))

  welcome_user-Keeps :
      (nick : List ℕ) (now id : ℕ) (u : ApiUser) → Keeps (welcome_user services nick now id u)
  unfolding welcome_user
  welcome_user-Keeps nick now id u = bind-Keeps _ _ (k.donating u.user_id) (λ hearts.
      if-Keeps _ _ _ pure-Keeps
        (with_user_data-Keeps services k id _ (welcome_donator-Keeps nick now u)))

  welcome_id-Keeps : (nick : List ℕ) (now id : ℕ) → Keeps (welcome_id services nick now id)
  unfolding welcome_id
  welcome_id-Keeps nick now id =
      bind-Keeps _ _ (found_in_time-Keeps _ (k.getting id 0))
        (λ found. option-Keeps found _ _ pure-Keeps (welcome_user-Keeps nick now id))

  welcome_if_donator-Keeps :
      (nick : List ℕ) (now : ℕ) → Keeps (welcome_if_donator services nick now)
  unfolding welcome_if_donator
  welcome_if_donator-Keeps nick now =
      bind-Keeps _ _ (found_in_time-Keeps _ (k.resolving nick))
        (λ found. option-Keeps found _ _ pure-Keeps (welcome_id-Keeps nick now))

  visit_kind-Keeps :
      (kind : Kind) (nick : List ℕ) (now : ℕ) → Keeps (visit_kind services kind nick now)
  unfolding visit_kind
  visit_kind-Keeps joined nick now =
      catch-Keeps is_caught_joined _ _ (welcome_if_donator-Keeps nick now) (λ e.
        bind-Keeps _ _ (handle_exception-Keeps services k e services.default_language)
          (λ r. pure-Keeps))
  visit_kind-Keeps (private_message text) nick now =
      process_private_message-Keeps services k nick (codes text)
  visit_kind-Keeps (private_action text) nick now =
      process_private_action-Keeps services k nick (codes text)
  visit_kind-Keeps sighted nick now = pure-Keeps

  pub visit-Keeps : (event : GameChatEvent) (now : ℕ) → Keeps (visit services event now)
  unfolding visit
  visit-Keeps event now = visit_kind-Keeps event.kind (codes event.nick) now

  note_user-Keeps : (t : ℕ) (found : Option ℕ) → Keeps (note_user services t found)
  unfolding note_user
  note_user-Keeps t none = pure-Keeps
  note_user-Keeps t (some id) = k.noting id t

  pub register_activity-Keeps : (nick : List ℕ) (t : ℕ) → Keeps (register_activity services nick t)
  unfolding register_activity
  register_activity-Keeps nick t =
      catch-Keeps is_exception _ _
        (bind-Keeps _ (note_user services t) (k.resolving nick) (note_user-Keeps t))
        (λ e. pure-Keeps)
