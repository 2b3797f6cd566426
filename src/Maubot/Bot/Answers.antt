-- ===== src/Maubot/Bot/Answers.antt =====
-- What a command of a chat room comes to, for `_on_command` of
-- packages/evoid-maubot/evoid_maubot/__init__.py.
use evoid_plugins.Prelude.{
  String, Bool, true, false, not, ◌&&◌, ◌≡◌, refl, Option, none, some, List, [], ◌∷◌, string_eq,
  ◌==◌, if◌then◌else◌, arith, inl, inr, Option-cases,
}
use evoid_plugins.Py.Dict.{get}
use evoid_plugins.Py.Exec.{Error, Result, ok, err, Exec, continue}
use evoid_plugins.Maubot.Command.{CommandDef, Dicts, parse_args, format_response}
use evoid_plugins.Maubot.Bot.{
  CommandIntent, Event, EvoidMaubot, Host, is_moderator, make_intent, respond, execute, run_command,
  on_subcommand, on_command,
}

-- what the bot does that others see
pub data Action (A : Type 0) : Type 0 where
  replied : String → Action A
  published : CommandIntent A → Action A

after :
    {S X B : Type 0} (Q : Result B × S → Type 0) (r : Result X) (s : S) (f : X → Exec S B)
    → ((e : Error) → Q (err e, s))
    → ((x : X) → Q (f x s))
    → Q (continue (r, s) f)
after Q (ok x) s f raised went = went x
after Q (err e) s f raised went = raised e

either :
    {S B : Type 0} (Q : Result B × S → Type 0) (c : Bool) (x y : Exec S B) (s : S)
    → (c ≡ true → Q (x s))
    → (c ≡ false → Q (y s))
    → Q ((if c then x else y) s)
either Q true x y s when_true when_false = when_true refl
either Q false x y s when_true when_false = when_false refl

module _ {A R W : Type 0} (host : Host A R W) where
  open host use {reply, publish, on, lower, critical, standard}

  -- the host, with a record of the actions, the newest first
  abbrev pub recorded : Host A R (W × List (Action A))
  recorded = record {
    reply = λ text s. ((reply text s.0).0, ((reply text s.0).1, replied text ∷ s.1));
    publish =
        λ i source s. ((publish i source s.0).0, ((publish i source s.0).1, published i ∷ s.1));
    on = λ name level command s.
        ((on name level command s.0).0, ((on name level command s.0).1, s.1));
    lower = lower;
    critical = critical;
    standard = standard;
  }

  -- The intent is that of a registered command at its level, in the name of the sender, who is a
  -- moderator where the command asks for one.
  pub record IsAllowed (b : EvoidMaubot A R) (event : Event) (i : CommandIntent A) : Type 0 where
    pub command_def : CommandDef A R
    pub registered : get b.registry i.command ≡ some command_def
    pub at_level : i.level ≡ (if command_def.requires_moderator then critical else standard)
    pub by_sender : i.user ≡ event.sender
    pub by_moderator : command_def.requires_moderator ≡ true → is_moderator b event.sender ≡ true

  -- How a command ends, and the actions after it: it is answered at once, its parser raises, the bus
  -- or the formatter raises, or its intent is published and it is answered.
  pub data Answered (b : EvoidMaubot A R) (event : Event) (log : List (Action A))
      : Result (Unit {0}) → List (Action A) → Type 0 where
    at_once : (r : Result (Unit {0})) (text : String) → Answered b event log r (replied text ∷ log)
    crashed : (e : Error) → Answered b event log (err e) log
    unanswered :
        (e : Error) (i : CommandIntent A)
        → IsAllowed b event i
        → Answered b event log (err e) (published i ∷ log)
    ran :
        (r : Result (Unit {0})) (i : CommandIntent A) (text : String)
        → IsAllowed b event i
        → Answered b event log r (replied text ∷ published i ∷ log)

  abbrev pub IsAnswered :
      EvoidMaubot A R → Event → List (Action A) → Result (Unit {0}) × (W × List (Action A)) → Type 0
  IsAnswered b event log p = Answered b event log p.0 p.1.1

  module _ (dicts : Dicts A R) (b : EvoidMaubot A R) (event : Event) (log : List (Action A)) where
    respond-IsAnswered :
        (subcommand : String) (d : CommandDef A R) (args : A) (i : CommandIntent A)
        (results : List R) (w : W)
        → IsAllowed b event i
        → IsAnswered b event log
            (respond dicts recorded subcommand d args results (w, published i ∷ log))
    unfolding respond
    respond-IsAnswered subcommand d args i [] w fine = ran _ i _ fine
    respond-IsAnswered subcommand d args i (result ∷ _) w fine =
        after (IsAnswered b event log) (format_response dicts d result args) (w, published i ∷ log)
          recorded.reply (λ e. unanswered e i fine) (λ text. ran _ i text fine)

    execute-IsAnswered :
        (subcommand : String) (d : CommandDef A R) (args : Option A) (w : W)
        → get b.registry subcommand ≡ some d
        → (d.requires_moderator && not (is_moderator b event.sender)) ≡ false
        → IsAnswered b event log (execute dicts recorded b event subcommand d args (w, log))
    unfolding execute make_intent
    execute-IsAnswered subcommand d none w known fine = at_once _ _
    execute-IsAnswered subcommand d (some args) w known fine =
        let i = make_intent dicts recorded subcommand d args event in
        let allowed : IsAllowed b event i = record {
          command_def = d;
          registered = known;
          at_level = refl;
          by_sender = refl;
          by_moderator = λ asks. ground arith;
        } in
        either (IsAnswered b event log) b.has_evoid _ _ (w, log)
          (λ here.
            after (IsAnswered b event log) (publish i "maubot" w).0
              ((publish i "maubot" w).1, published i ∷ log)
              (respond dicts recorded subcommand d args) (λ e. unanswered e i allowed)
              (λ results. respond-IsAnswered subcommand d args i results _ allowed))
          (λ missing. at_once _ _)

    run_command-IsAnswered :
        (subcommand : String) (d : CommandDef A R) (args : List String) (w : W)
        → get b.registry subcommand ≡ some d
        → IsAnswered b event log (run_command dicts recorded b event subcommand d args (w, log))
    unfolding run_command
    run_command-IsAnswered subcommand d args w known =
        either (IsAnswered b event log) (d.requires_moderator && not (is_moderator b event.sender))
          _ _ (w, log) (λ refused. at_once _ _)
          (λ fine.
            after (IsAnswered b event log) (parse_args dicts d args) (w, log)
              (execute dicts recorded b event subcommand d) crashed
              (λ parsed. execute-IsAnswered subcommand d parsed w known fine))

    on_subcommand-IsAnswered :
        (subcommand : String) (args : List String) (w : W)
        → IsAnswered b event log (on_subcommand dicts recorded b event subcommand args (w, log))
    unfolding on_subcommand
    on_subcommand-IsAnswered subcommand args w =
        either (IsAnswered b event log) (subcommand == "help") _ _ (w, log) (λ help. at_once _ _)
          (λ other. elim (Option-cases (get b.registry subcommand)) [
            | inl unknown ↦ rw unknown (at_once _ _)
            | inr (d, known) ↦ rw known (run_command-IsAnswered subcommand d args w known)
          ])

    -- A command of a user either is answered at once, or its parser raises, or one intent is published
    -- and then answered, unless the bus or the formatter raises. Where the bot does not raise there is
    -- just one answer. An intent that is published is that of a registered command at its level, in the
    -- name of the sender, who is a moderator if the command asks for one.
    pub on_command-Answered :
        (args : List String) (w : W)
        → Answered b event log
            (on_command dicts recorded b event args (w, log)).0
            (on_command dicts recorded b event args (w, log)).1.1
    unfolding on_command
    on_command-Answered [] w = at_once _ _
    on_command-Answered (first ∷ args) w = on_subcommand-IsAnswered (lower first) args w
