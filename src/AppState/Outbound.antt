-- ===== src/AppState/Outbound.antt =====
-- Outbound commands: the handler's outcome decides between the history and the activity log.
use watchlist.Prelude.{Bool, true, false, Option, none, some, ◌≡◌, refl, ◌++◌, Bytes, bytes}
use watchlist.AppState.{
  AppState, Outcome, returned, threw, threw_unknown, add_bounded, add_outbound, add_activity,
  after_handler, dispatch_with, dispatch_outbound,
}

module _ {H : Type 0} (invoke : H → Bytes → AppState H → Outcome × AppState H) where
  -- Why a payload was not sent, with the state that is left then and the line that is logged.
  pub data Refusal (payload : Bytes) (s ran : AppState H) (line : Bytes) : Type 0 where
    no_handler :
        s.outbound_command_handler ≡ none
        → ran ≡ s
        → line ≡ bytes "Unable to send request: no outbound command handler is installed"
        → Refusal payload s ran line
    handler_threw :
        (h : H) (what : Bytes)
        → s.outbound_command_handler ≡ some h
        → invoke h payload s ≡ (threw what, ran)
        → line ≡ bytes "Unable to send request: " ++ what
        → Refusal payload s ran line
    handler_threw_unknown :
        (h : H)
        → s.outbound_command_handler ≡ some h
        → invoke h payload s ≡ (threw_unknown, ran)
        → line ≡ bytes "Unable to send request: outbound command failed with an unknown exception"
        → Refusal payload s ran line

  -- The handler's own changes, and one line more in the activity log.
  pub record Refused (payload : Bytes) (s after : AppState H) : Type 0 where
    pub ran : AppState H
    pub line : Bytes
    pub cause : Refusal payload s ran line
    pub logged : after ≡ record ran { activity = add_bounded ran.activity line }

  -- The payload reached the handler, which returned, and it is in the outbound log.
  pub record Sent (payload : Bytes) (s after : AppState H) : Type 0 where
    pub handler : H
    pub ran : AppState H
    pub installed : s.outbound_command_handler ≡ some handler
    pub ended : invoke handler payload s ≡ (returned, ran)
    pub logged : after ≡ record ran { outbound = add_bounded ran.outbound payload }

  abbrev pub Dispatched : Bytes → AppState H → Bool × AppState H → Type 0
  Dispatched payload s (true, after) = Sent payload s after
  Dispatched payload s (false, after) = Refused payload s after

  after_handler-Dispatched :
      (payload : Bytes) (s : AppState H) (h : H) (r : Outcome × AppState H)
      → s.outbound_command_handler ≡ some h
      → invoke h payload s ≡ r
      → Dispatched payload s (after_handler payload r)
  unfolding after_handler add_outbound add_activity
  after_handler-Dispatched payload s h (returned, ran) i e = record {
    handler = h;
    ran = ran;
    installed = i;
    ended = e;
    logged = refl;
  }
  after_handler-Dispatched payload s h (threw what, ran) i e = record {
    ran = ran;
    line = _;
    cause = handler_threw h what i e refl;
    logged = refl;
  }
  after_handler-Dispatched payload s h (threw_unknown, ran) i e = record {
    ran = ran;
    line = _;
    cause = handler_threw_unknown h i e refl;
    logged = refl;
  }

  dispatch_with-Dispatched :
      (payload : Bytes) (s : AppState H) (o : Option H)
      → s.outbound_command_handler ≡ o
      → Dispatched payload s (dispatch_with invoke payload s o)
  unfolding dispatch_with add_activity
  dispatch_with-Dispatched payload s none e = record {
    ran = s;
    line = _;
    cause = no_handler e refl refl;
    logged = refl;
  }
  dispatch_with-Dispatched payload s (some h) e =
      after_handler-Dispatched payload s h (invoke h payload s) e refl

  -- True means that a handler was installed, was given the payload and returned, and that the only
  -- change after its own is the payload in the outbound log. False means that no handler was
  -- installed or that it threw, and that the only change after its own is one activity line, which
  -- says that there is none, or what the exception says, or that it is unknown.
  pub dispatch_outbound-Dispatched :
      (payload : Bytes) (s : AppState H) → Dispatched payload s (dispatch_outbound invoke payload s)
  unfolding dispatch_outbound
  dispatch_outbound-Dispatched payload s =
      dispatch_with-Dispatched payload s s.outbound_command_handler refl
