-- ===== src/Bot/Messages/Keeping.antt =====
-- That handling a message leaves the queue of responses alone.
use tillerinobot.Prelude.{
  ◌≡◌, refl, ◌∙◌, ℕ, Bool, true, false, Option, none, some, List, [], ◌∷◌, if◌then◌else◌, All,
  String, ◌||◌,
}
use tillerinobot.Prelude.Int.{ℤ}
use tillerinobot.Exceptions.{
  Exception, interrupted, user_exception, maintenance, sql_recoverable, service_unavailable,
  is_timeout, is_io, is_external,
}
use tillerinobot.Commands.{Handled, not_handled, response, CommandHandler, or_next}
use tillerinobot.Commands
use tillerinobot.Chat.Response.{Response}
use tillerinobot.Bot.{
  Outcome, ok, throws, ApiUser, Language, Bot, M, bind, or_catch, UserData, Services, ◌>>=◌, pure,
  try_catch,
}
use tillerinobot.Bot.Messages.{
  is_caught, cause, report, handle_cause, handle_exception, greet, check_version_info, checked_user,
  known_user, get_user_or_throw, close_user_data, with_user_data, run_handlers, or_unknown,
  answer_command, command_response, bang_response, wants_hug, hug_or_command, message_in_language,
  user_message, process_private_message, playing_in_language, user_action, process_private_action,
  name_log,
}

module _ {W : Type 0} where
  -- The method leaves the queue of responses alone.
  pub record Keeps {A : Type 0} (m : M W A) : Type 0 where
    pub kept : (s : Bot W) → (m s).1.queue ≡ s.queue

  pub pure-Keeps : {A : Type 0} {a : A} → Keeps (pure a)
  pure-Keeps = record { kept = λ s. refl }

  bind-queue :
      {A B : Type 0} (x : Outcome A × Bot W) (f : A → M W B)
      → ((a : A) (s : Bot W) → x ≡ (ok a, s) → (f a s).1.queue ≡ s.queue)
      → (bind x f).1.queue ≡ x.1.queue
  bind-queue (ok a, s) f h = h a s refl
  bind-queue (throws e, s) f h = refl

  pub bind-Keeps :
      {A B : Type 0} (m : M W A) (f : A → M W B)
      → Keeps m
      → ((a : A) → Keeps (f a))
      → Keeps (m >>= f)
  bind-Keeps m f h k = record { kept = λ s. bind-queue (m s) f (λ a t e. (k a).kept t) ∙ h.kept s }

  -- What is bound may depend on where the value comes from.
  pub bind-Keeps_from :
      {A B : Type 0} (m : M W A) (f : A → M W B)
      → Keeps m
      → ((a : A) (s t : Bot W) → m s ≡ (ok a, t) → Keeps (f a))
      → Keeps (m >>= f)
  bind-Keeps_from m f h k = record {
    kept = λ s. bind-queue (m s) f (λ a t e. (k a s t e).kept t) ∙ h.kept s;
  }

  or_catch-queue :
      {A : Type 0} (caught : Exception → Bool) (handler : Exception → M W A) (x : Outcome A × Bot W)
      → ((e : Exception) → Keeps (handler e))
      → (or_catch caught handler x).1.queue ≡ x.1.queue
  or_catch-queue caught handler (ok a, s) h = refl
  or_catch-queue caught handler (throws e, s) h = go (caught e)
    where
      go : (b : Bool) → (if b then handler e s else (throws e, s)).1.queue ≡ s.queue
      go true = (h e).kept s
      go false = refl

  pub catch-Keeps :
      {A : Type 0} (caught : Exception → Bool) (m : M W A) (handler : Exception → M W A)
      → Keeps m
      → ((e : Exception) → Keeps (handler e))
      → Keeps (try_catch caught m handler)
  catch-Keeps caught m handler h k = record {
    kept = λ s. or_catch-queue caught handler (m s) k ∙ h.kept s;
  }

  pub if-Keeps :
      {A : Type 0} (b : Bool) (m n : M W A) → Keeps m → Keeps n → Keeps (if b then m else n)
  if-Keeps true m n h k = h
  if-Keeps false m n h k = k

  pub option-Keeps :
      {A B : Type 0} (o : Option A) (n : M W B) (f : A → M W B)
      → Keeps n
      → ((a : A) → Keeps (f a))
      → Keeps (elim o [ none ↦ n | some a ↦ f a ])
  option-Keeps none n f h k = h
  option-Keeps (some a) n f h k = k a

-- All that the bot calls leaves the queue of responses alone.
pub record KeepsQueue {W : Type 0} (services : Services W) : Type 0 where
  pub resolving : (nick : List ℕ) → Keeps (services.resolve_irc_name nick)
  pub mapping : (nick : List ℕ) (id : ℕ) → Keeps (services.set_mapping nick id)
  pub redownloading : (nick : List ℕ) → Keeps (services.redownload_user nick)
  pub getting : (id age : ℕ) → Keeps (services.get_user id age)
  pub donating : (id : ℕ) → Keeps (services.get_donator id)
  pub loading : (id : ℕ) → Keeps (services.load_user_data id)
  pub speaking :
      (id : ℕ) (d : UserData W) (s t : Bot W)
      → services.load_user_data id s ≡ (ok d, t)
      → Keeps d.language
  pub saving : (id : ℕ) → Keeps (services.save_user_data id)
  pub reading_version : (nick : List ℕ) → Keeps (services.get_last_visited_version nick)
  pub writing_version : (nick : List ℕ) (v : ℤ) → Keeps (services.set_last_visited_version nick v)
  pub reading_activity : (u : ApiUser) → Keeps (services.get_last_activity u)
  pub noting : (id t : ℕ) → Keeps (services.register_activity id t)
  pub getting_update : (id : ℕ) → Keeps (services.get_update id)
  pub fixing : (text : List ℕ) → Keeps (services.fix_id text)
  pub linking : (text : List ℕ) (u : ApiUser) → Keeps (services.link_ppaddict text u)
  pub playing : (text : List ℕ) (u : ApiUser) (l : Language) → Keeps (services.now_playing text u l)
  pub handling_commands :
      (u : ApiUser) (l : Language)
      → All
          (λ (h : CommandHandler (Bot W)).
            (c : List ℕ) (s : Bot W) → (h.handle c s).1.queue ≡ s.queue)
          (services.command_handlers u l)
  pub drawing : (s : Bot W) → (services.random_string s).1.queue ≡ s.queue

module _ {W : Type 0} (services : Services W) (k : KeepsQueue services) where
  name_log-Keeps : (f : String → String) → Keeps (name_log services f)
  name_log-Keeps f = record { kept = k.drawing }

  report-Keeps : (e : Exception) (lang : Language) → Keeps (report services e lang)
  unfolding report
  report-Keeps e lang = if-Keeps (is_timeout e) _ _ pure-Keeps (
      if-Keeps (is_io e || is_external e) (name_log services lang.external)
        (name_log services lang.internal) (name_log-Keeps lang.external)
        (name_log-Keeps lang.internal))

  handle_cause-Keeps : (e : Exception) (lang : Language) → Keeps (handle_cause services e lang)
  unfolding handle_cause
  handle_cause-Keeps interrupted lang = pure-Keeps
  handle_cause-Keeps maintenance lang = pure-Keeps
  handle_cause-Keeps sql_recoverable lang = pure-Keeps
  handle_cause-Keeps (user_exception text) lang = pure-Keeps
  handle_cause-Keeps service_unavailable lang = pure-Keeps
  handle_cause-Keeps e lang = report-Keeps e lang

  pub handle_exception-Keeps :
      (e : Exception) (lang : Language) → Keeps (handle_exception services e lang)
  unfolding handle_exception
  handle_exception-Keeps e lang = handle_cause-Keeps (cause e) lang

  greet-Keeps : (nick : List ℕ) (v : ℤ) → Keeps (greet services nick v)
  unfolding greet
  greet-Keeps nick v =
      if-Keeps _ _ _ (bind-Keeps _ _ (k.writing_version nick _) (λ u. pure-Keeps)) pure-Keeps

  pub check_version_info-Keeps : (nick : List ℕ) → Keeps (check_version_info services nick)
  unfolding check_version_info
  check_version_info-Keeps nick = bind-Keeps _ _ (k.reading_version nick) (greet-Keeps nick)

  checked_user-Keeps : (nick : List ℕ) (u : ApiUser) → Keeps (checked_user services nick u)
  unfolding checked_user
  checked_user-Keeps nick u =
      if-Keeps _ _ _ pure-Keeps (bind-Keeps _ _ (k.mapping _ u.user_id) (λ _. k.redownloading nick))

  known_user-Keeps : (nick : List ℕ) (o : Option ℕ) → Keeps (known_user services nick o)
  unfolding known_user
  known_user-Keeps nick none = pure-Keeps
  known_user-Keeps nick (some id) =
      bind-Keeps _ _ (k.getting id _)
        (λ found. option-Keeps found _ _ pure-Keeps (checked_user-Keeps nick))

  get_user_or_throw-Keeps : (nick : List ℕ) → Keeps (get_user_or_throw services nick)
  unfolding get_user_or_throw
  get_user_or_throw-Keeps nick = bind-Keeps _ _ (k.resolving nick) (λ id.
      bind-Keeps _ _ (known_user-Keeps nick id)
        (λ found. option-Keeps found _ _ (record { kept = k.drawing }) (λ u. pure-Keeps)))

  close_user_data-queue :
      {A : Type 0} (x : Outcome A × Bot W) (id : ℕ)
      → (close_user_data services x (services.save_user_data id)).1.queue ≡ x.1.queue
  unfolding close_user_data
  close_user_data-queue (throws e, s) id = (k.saving id).kept s
  close_user_data-queue (ok a, s) id =
      (bind-Keeps (services.save_user_data id) (λ _. pure a) (k.saving id) (λ u. pure-Keeps)).kept s

  pub with_user_data-Keeps :
      {A : Type 0} (id : ℕ) (body : UserData W → M W A)
      → ((d : UserData W) → Keeps d.language → Keeps (body d))
      → Keeps (with_user_data services id body)
  unfolding with_user_data
  with_user_data-Keeps id body h = bind-Keeps_from _ _ (k.loading id) (λ d s t e. record {
    kept = λ u. close_user_data-queue (body d u) id ∙ (h d (k.speaking id d s t e)).kept u;
  })

  or_next-queue :
      (r : Handled × Bot W) (next : Bot W → Handled × Bot W)
      → ((t : Bot W) → (next t).1.queue ≡ t.queue)
      → (or_next (Bot W) next r).1.queue ≡ r.1.queue
  unfolding or_next
  or_next-queue (not_handled, s) next h = h s
  or_next-queue (response r, s) next h = refl
  or_next-queue (Commands.throws e, s) next h = refl

  run_handlers-queue :
      (hs : List (CommandHandler (Bot W))) (c : List ℕ) (s : Bot W)
      → All
          (λ (h : CommandHandler (Bot W)).
            (c : List ℕ) (s : Bot W) → (h.handle c s).1.queue ≡ s.queue)
          hs
      → (run_handlers services hs c s).1.queue ≡ s.queue
  unfolding run_handlers
  run_handlers-queue [] c s h = refl
  run_handlers-queue (x ∷ hs) c s h =
      or_next-queue (x.handle c s) (run_handlers services hs c) (λ t. run_handlers-queue hs c t h.1)
      ∙ h.0 c s

  or_unknown-queue :
      (lang : Language) (c : List ℕ) (r : Handled × Bot W)
      → (or_unknown services lang c r).1.queue ≡ r.1.queue
  unfolding or_unknown
  or_unknown-queue lang c (not_handled, s) = refl
  or_unknown-queue lang c (response r, s) = refl
  or_unknown-queue lang c (Commands.throws e, s) = refl

  answer_command-Keeps :
      (u : ApiUser) (lang : Language) (c : List ℕ) → Keeps (answer_command services u lang c)
  unfolding answer_command
  answer_command-Keeps u lang c = record {
    kept = λ s.
        or_unknown-queue lang c (run_handlers services (services.command_handlers u lang) c s)
        ∙ run_handlers-queue (services.command_handlers u lang) c s (k.handling_commands u lang);
  }

  command_response-Keeps :
      (u : ApiUser) (lang : Language) (c : List ℕ) (prelim : Response)
      → Keeps (command_response services u lang c prelim)
  unfolding command_response
  command_response-Keeps u lang c prelim =
      bind-Keeps _ _
        (catch-Keeps is_caught _ _ (answer_command-Keeps u lang c)
          (λ e. handle_exception-Keeps e lang))
        (λ r. pure-Keeps)

  bang_response-Keeps :
      (nick : List ℕ) (u : ApiUser) (lang : Language) (text : List ℕ)
      → Keeps (bang_response services nick u lang text)
  unfolding bang_response
  bang_response-Keeps nick u lang [] = pure-Keeps
  bang_response-Keeps nick u lang (c ∷ text) =
      if-Keeps _ _ _
        (bind-Keeps _ _ (check_version_info-Keeps nick) (command_response-Keeps u lang _))
        pure-Keeps

  wants_hug-Keeps : (text : List ℕ) (u : ApiUser) → Keeps (wants_hug services text u)
  unfolding wants_hug
  wants_hug-Keeps text u =
      if-Keeps _ _ _ (bind-Keeps _ _ (k.donating u.user_id) (λ h. pure-Keeps)) pure-Keeps

  hug_or_command-Keeps :
      (nick text : List ℕ) (u : ApiUser) (lang : Language)
      → Keeps (hug_or_command services nick text u lang)
  unfolding hug_or_command
  hug_or_command-Keeps nick text u lang = bind-Keeps _ _ (wants_hug-Keeps text u) (λ hug.
      if-Keeps hug _ _ pure-Keeps (
        bind-Keeps _ _ (k.linking text u) (λ linked.
          option-Keeps linked _ _ (bang_response-Keeps nick u lang text) (λ r. pure-Keeps))))

  user_message-Keeps : (nick text : List ℕ) → Keeps (user_message services nick text)
  unfolding user_message message_in_language
  user_message-Keeps nick text = bind-Keeps _ _ (get_user_or_throw-Keeps nick) (λ u.
      with_user_data-Keeps u.user_id _ (λ d l. bind-Keeps _ _ l (λ lang.
        catch-Keeps is_caught _ _ (hug_or_command-Keeps nick text u lang)
          (λ e. handle_exception-Keeps e lang))))

  pub process_private_message-Keeps :
      (nick text : List ℕ) → Keeps (process_private_message services nick text)
  unfolding process_private_message
  process_private_message-Keeps nick text =
      catch-Keeps is_caught _ _
        (bind-Keeps _ _ (k.fixing text)
          (λ fixed. option-Keeps fixed _ _ (user_message-Keeps nick text) (λ r. pure-Keeps)))
        (λ e. handle_exception-Keeps e services.default_language)

  user_action-Keeps : (nick text : List ℕ) (v : Response) → Keeps (user_action services nick text v)
  unfolding user_action playing_in_language
  user_action-Keeps nick text v = bind-Keeps _ _ (get_user_or_throw-Keeps nick) (λ u.
      with_user_data-Keeps u.user_id _ (λ d l. bind-Keeps _ _ l (λ lang.
        bind-Keeps _ _
          (catch-Keeps is_caught _ _ (k.playing text u lang)
            (λ e. bind-Keeps _ _ (handle_exception-Keeps e lang) (λ r. pure-Keeps)))
          (λ r. pure-Keeps))))

  pub process_private_action-Keeps :
      (nick text : List ℕ) → Keeps (process_private_action services nick text)
  unfolding process_private_action
  process_private_action-Keeps nick text =
      catch-Keeps is_caught _ _
        (bind-Keeps _ _ (check_version_info-Keeps nick) (λ v.
          catch-Keeps is_caught _ _ (user_action-Keeps nick text v) (λ e.
            bind-Keeps _ _ (handle_exception-Keeps e services.default_language) (λ r. pure-Keeps))))
        (λ e. handle_exception-Keeps e services.default_language)
