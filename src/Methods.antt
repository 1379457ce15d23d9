-- ===== src/Methods.antt =====
-- internal/eval/eval_oop.go: the frames of the methods that run, `superMarker` and `instantiate`;
-- eval_members.go and eval_comp.go: the dispatch of `evalMethodCall` and of `evalPipeMethodCall`.
pub mod Frames
use kolang.Prelude.{ℕ, List, [], ◌∷◌, Option, none, some, Bool, ◌&&◌, Text, if◌then◌else◌}
use kolang.Control.World.{
  Signal, Outcome, ok, err, return_signal, break_signal, continue_signal, raise_signal,
  runtime_error, Step, bind,
}

-- `Frame`: the instance, which may be nil, and the class that defines the method.
pub record Frame : Type 0 where
  pub inst : Option ℕ
  pub class : ℕ

-- What a receiver is: an `Instance`, a `Super` with its object and its class, or another value.
pub data Receiver : Type 0 where
  instance : ℕ → Receiver
  super : Option ℕ → ℕ → Receiver
  other : Receiver

-- What the dispatch asks of the rest of the interpreter; instances and classes are named by their
-- places.
pub record Objects (Fn S V X : Type 0) : Type 0 where
  -- The stack of frames, the innermost first.
  pub frames : S → List Frame
  pub with_frames : List Frame → S → S
  pub view : V → Receiver
  pub instance_value : ℕ → V
  pub super_value : Option ℕ → ℕ → V
  pub text_value : Text → V
  pub stringify : V → S → Text
  pub class_of : ℕ → S → ℕ
  pub parent_of : ℕ → S → Option ℕ
  pub lookup_method : ℕ → Text → S → Option (Fn × ℕ)
  pub constructor_of : ℕ → S → Option (Fn × ℕ)
  pub is_exception_class : ℕ → S → Bool
  pub new_instance : ℕ → S → S × ℕ
  pub field : ℕ → Text → S → Option V
  pub set_message : ℕ → V → S → S
  -- `env.Get(attr)` of a function, and `getAttr`.
  pub function_named : ℕ → Text → S → Option Fn
  pub get_attr : V → Text → S → Option V
  pub call : V → List V → ℕ → Step S V X V
  pub call_function : Fn → List V → List (Text × V) → ℕ → Step S V X V
  -- The errors, with their texts.
  pub no_method : V → Text → ℕ → S → Signal V X
  pub outside_method : ℕ → Signal V X
  pub no_parent : ℕ → ℕ → S → Signal V X

module _ {Fn S V X : Type 0} (objects : Objects Fn S V X) where
  open objects use {frames, with_frames, view, lookup_method, call_function}

  abbrev pub popped : List Frame → List Frame
  popped [] = []
  popped (f ∷ fs) = fs

  -- `pushFrame` and `popFrame`, around a step whose error does not skip the pop.
  unfoldable pub push_frame : Frame → S → S
  push_frame f s = with_frames (f ∷ frames s) s

  unfoldable pub pop_frame : S → S
  pop_frame s = with_frames (popped (frames s)) s

  abbrev pub and_pop : {A : Type 0} → Outcome V X A × S → Outcome V X A × S
  and_pop (r, s) = (r, pop_frame s)

  unfoldable pub in_frame : {A : Type 0} → Frame → Step S V X A → Step S V X A
  unfolding push_frame pop_frame
  in_frame f m s = and_pop (m (push_frame f s))

  -- `currentSelf` and `currentMethodClass`.
  unfoldable pub current_self : S → Option ℕ
  current_self s = elim (frames s) [ [] ↦ none | f ∷ fs ↦ f.inst ]

  unfoldable pub current_method_class : S → Option ℕ
  current_method_class s = elim (frames s) [ [] ↦ none | f ∷ fs ↦ some f.class ]

  -- `superMarker`.
  abbrev pub super_of : ℕ → ℕ → S → Option ℕ → Outcome V X V × S
  super_of line c s none = (err (objects.no_parent c line s), s)
  super_of line c s (some p) = (ok (objects.super_value none p), s)

  unfoldable pub super_marker : ℕ → Step S V X V
  super_marker line s = elim (frames s) [
    | [] ↦ (err (objects.outside_method line), s)
    | f ∷ fs ↦ super_of line f.class s (objects.parent_of f.class s)
  ]

  abbrev pub instance_of_view : Receiver → Option ℕ
  instance_of_view (instance i) = some i
  instance_of_view _ = none

  -- The instance that a method of the parent class runs on, and its arguments.
  abbrev pub bound_self : Option ℕ → List V → Option ℕ
  bound_self (some o) vs = some o
  bound_self none [] = none
  bound_self none (v ∷ vs) = instance_of_view (view v)

  abbrev pub super_args : Option ℕ → List V → List V
  super_args none vs = vs
  super_args (some o) vs = objects.instance_value o ∷ vs

  abbrev pub in_frame_of : Option ℕ → ℕ → Step S V X V → Step S V X V
  in_frame_of none c m = m
  in_frame_of (some i) c m = in_frame (record { inst = some i; class = c }) m

  abbrev pub missing : V → Text → ℕ → Step S V X V
  missing r attr line s = (err (objects.no_method r attr line s), s)

  -- A function in scope stands in for a method that neither the class nor a field has.
  abbrev pub function_or_fail : V → Text → Step S V X (List V) → ℕ → Option Fn → Step S V X V
  function_or_fail r attr args line none = missing r attr line
  function_or_fail r attr args line (some fn) = bind args (λ vs. call_function fn (r ∷ vs) [] line)

  abbrev pub field_or : Step S V X (List V) → ℕ → Step S V X V → Option V → Step S V X V
  field_or args line otherwise none = otherwise
  field_or args line otherwise (some f) = bind args (λ vs. objects.call f vs line)

  abbrev pub method_or :
      ℕ → V → Step S V X (List V) → ℕ → Step S V X V → Option (Fn × ℕ) → Step S V X V
  method_or i r args line otherwise none = otherwise
  method_or i r args line otherwise (some (fn, c)) =
      bind args
        (λ vs. in_frame (record { inst = some i; class = c }) (call_function fn (r ∷ vs) [] line))

  abbrev pub super_method :
      Option ℕ → V → Text → Step S V X (List V) → ℕ → Option (Fn × ℕ) → Step S V X V
  super_method obj r attr args line none = missing r attr line
  super_method obj r attr args line (some (fn, c)) =
      bind args
        (λ vs. in_frame_of (bound_self obj vs) c (call_function fn (super_args obj vs) [] line))

  abbrev pub attr_method : V → Text → Step S V X (List V) → ℕ → Option V → Step S V X V
  attr_method r attr args line none = missing r attr line
  attr_method r attr args line (some m) = bind args (λ vs. objects.call m (r ∷ vs) line)

  abbrev pub dispatch : Receiver → V → Text → Step S V X (List V) → ℕ → ℕ → Step S V X V
  dispatch (instance i) r attr args env line s =
      method_or i r args line
        (field_or args line (function_or_fail r attr args line (objects.function_named env attr s))
          (objects.field i attr s))
        (lookup_method (objects.class_of i s) attr s) s
  dispatch (super obj k) r attr args env line s =
      super_method obj r attr args line (lookup_method k attr s) s
  dispatch other r attr args env line s = attr_method r attr args line (objects.get_attr r attr s) s

  -- The dispatch of `evalMethodCall`, behind the receiver and the name.
  unfoldable pub call_method : V → Text → Step S V X (List V) → ℕ → ℕ → Step S V X V
  unfolding in_frame
  call_method r attr args env line = dispatch (view r) r attr args env line

  -- The dispatch of `evalPipeMethodCall`, whose arguments are there. It has no case for a field or
  -- a function in scope, and opens a frame for a parent class without an instance, too.
  abbrev pub piped_method : ℕ → V → Text → List V → ℕ → Option (Fn × ℕ) → Step S V X V
  piped_method i r attr vs line none = missing r attr line
  piped_method i r attr vs line (some (fn, c)) =
      in_frame (record { inst = some i; class = c }) (call_function fn (r ∷ vs) [] line)

  abbrev pub piped_super : Option ℕ → V → Text → List V → ℕ → Option (Fn × ℕ) → Step S V X V
  piped_super obj r attr vs line none = missing r attr line
  piped_super obj r attr vs line (some (fn, c)) =
      in_frame (record { inst = obj; class = c }) (call_function fn (super_args obj vs) [] line)

  abbrev pub piped_attr : V → Text → List V → ℕ → Option V → Step S V X V
  piped_attr r attr vs line none = missing r attr line
  piped_attr r attr vs line (some m) = objects.call m (r ∷ vs) line

  abbrev pub piped_dispatch : Receiver → V → Text → List V → ℕ → Step S V X V
  piped_dispatch (instance i) r attr vs line s =
      piped_method i r attr vs line (lookup_method (objects.class_of i s) attr s) s
  piped_dispatch (super obj k) r attr vs line s =
      piped_super obj r attr vs line (lookup_method k attr s) s
  piped_dispatch other r attr vs line s = piped_attr r attr vs line (objects.get_attr r attr s) s

  unfoldable pub pipe_method : V → Text → List V → ℕ → Step S V X V
  unfolding in_frame
  pipe_method r attr vs line = piped_dispatch (view r) r attr vs line

  -- The end of `instantiate` behind a constructor: a return is none of its errors.
  abbrev pub constructed : V → Outcome V X V × S → Outcome V X V × S
  constructed inst (ok v, s) = (ok inst, s)
  constructed inst (err (return_signal v), s) = (ok inst, s)
  constructed inst (err g, s) = (err g, s)

  abbrev pub message_of : List V → S → Text
  message_of [] s = []
  message_of (v ∷ vs) s = objects.stringify v s

  -- An exception class without a constructor keeps the first argument as its message.
  abbrev pub unconstructed : ℕ → List V → ℕ → Step S V X V
  unconstructed c vs i s =
      let message = objects.text_value (message_of vs s) in
      (
        ok (objects.instance_value i),
        if objects.is_exception_class c s then objects.set_message i message s else s,
      )

  abbrev pub construct : ℕ → List V → List (Text × V) → ℕ → ℕ → Option (Fn × ℕ) → Step S V X V
  construct c vs kws line i none s = unconstructed c vs i s
  construct c vs kws line i (some (fn, k)) s =
      let inst = objects.instance_value i in
      constructed inst
        (in_frame (record { inst = some i; class = k }) (call_function fn (inst ∷ vs) kws line) s)

  -- `instantiate`.
  unfoldable pub instantiate : ℕ → List V → List (Text × V) → ℕ → Step S V X V
  unfolding in_frame
  instantiate c vs kws line s =
      let (t, i) = objects.new_instance c s in
      construct c vs kws line i (objects.constructor_of c t) t
