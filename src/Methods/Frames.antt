-- ===== src/Methods/Frames.antt =====
-- internal/eval/eval_oop.go: the stack of frames around a method call and an instantiation.
use kolang.Prelude.{ℕ, ◌≡◌, refl, ◌∙◌, ap, List, [], ◌∷◌, Option, none, some, Text, if_split}
use kolang.Control.World.{
  Outcome, ok, err, return_signal, break_signal, continue_signal, raise_signal, runtime_error, Step,
  bind, continue_with,
}
use kolang.Methods.{
  Frame, Receiver, instance, super, other, Objects, popped, push_frame, pop_frame, in_frame,
  dispatch, call_method, pipe_method, instantiate, field_or, function_or_fail, method_or,
  super_method, attr_method, in_frame_of, bound_self, super_args, piped_dispatch, piped_method,
  piped_super, piped_attr, constructed, construct,
}

module _ {Fn S V X : Type 0} (objects : Objects Fn S V X)
    (frames_of : (fs : List Frame) (s : S) → objects.frames (objects.with_frames fs s) ≡ fs) where
  -- A step that leaves the frames as they are.
  abbrev pub KeepsFrames : {A : Type 0} → Step S V X A → Type 0
  KeepsFrames m = (s : S) → objects.frames (m s).1 ≡ objects.frames s

  module _ (call_keeps : (f : V) (vs : List V) (line : ℕ) → KeepsFrames (objects.call f vs line))
      (function_keeps : (fn : Fn) (vs : List V) (kws : List (Text × V)) (line : ℕ)
        → KeepsFrames (objects.call_function fn vs kws line)) where
    continue-KeepsFrames :
        {A B : Type 0} (k : A → Step S V X B) (fs : List Frame)
        → ((a : A) → KeepsFrames (k a))
        → (r : Outcome V X A × S) → objects.frames r.1 ≡ fs
        → objects.frames (continue_with k r).1 ≡ fs
    unfolding continue_with
    continue-KeepsFrames k fs h (ok a, s) e = h a s ∙ e
    continue-KeepsFrames k fs h (err g, s) e = e

    bind-KeepsFrames :
        {A B : Type 0} (m : Step S V X A) (k : A → Step S V X B)
        → KeepsFrames m
        → ((a : A) → KeepsFrames (k a))
        → KeepsFrames (bind m k)
    bind-KeepsFrames m k h g s = continue-KeepsFrames k (objects.frames s) g (m s) (h s)

    in_frame-KeepsFrames :
        (f : Frame) (m : Step S V X V) → KeepsFrames m → KeepsFrames (in_frame objects f m)
    unfolding in_frame push_frame pop_frame
    in_frame-KeepsFrames f m h s =
        let pushed = push_frame objects f s in
        let inside : objects.frames (m pushed).1 ≡ f ∷ objects.frames s =
          h pushed ∙ frames_of (f ∷ objects.frames s) s in
        frames_of (popped objects (objects.frames (m pushed).1)) (m pushed).1
        ∙ ap (popped objects) inside

    in_frame_of-KeepsFrames :
        (o : Option ℕ) (c : ℕ) (m : Step S V X V)
        → KeepsFrames m
        → KeepsFrames (in_frame_of objects o c m)
    in_frame_of-KeepsFrames none c m h = h
    in_frame_of-KeepsFrames (some i) c m h = in_frame-KeepsFrames _ m h

    module _ (args : Step S V X (List V)) (args_keep : KeepsFrames args) where
      function_or_fail-KeepsFrames :
          (r : V) (attr : Text) (line : ℕ) (o : Option Fn)
          → KeepsFrames (function_or_fail objects r attr args line o)
      function_or_fail-KeepsFrames r attr line none = λ s. refl
      function_or_fail-KeepsFrames r attr line (some fn) =
          bind-KeepsFrames args _ args_keep (λ vs. function_keeps fn (r ∷ vs) [] line)

      field_or-KeepsFrames :
          (line : ℕ) (otherwise : Step S V X V) (o : Option V)
          → KeepsFrames otherwise
          → KeepsFrames (field_or objects args line otherwise o)
      field_or-KeepsFrames line otherwise none h = h
      field_or-KeepsFrames line otherwise (some f) h =
          bind-KeepsFrames args _ args_keep (λ vs. call_keeps f vs line)

      method_or-KeepsFrames :
          (i : ℕ) (r : V) (line : ℕ) (otherwise : Step S V X V) (o : Option (Fn × ℕ))
          → KeepsFrames otherwise
          → KeepsFrames (method_or objects i r args line otherwise o)
      method_or-KeepsFrames i r line otherwise none h = h
      method_or-KeepsFrames i r line otherwise (some (fn, c)) h =
          bind-KeepsFrames args _ args_keep
            (λ vs. in_frame-KeepsFrames _ _ (function_keeps fn (r ∷ vs) [] line))

      super_method-KeepsFrames :
          (obj : Option ℕ) (r : V) (attr : Text) (line : ℕ) (o : Option (Fn × ℕ))
          → KeepsFrames (super_method objects obj r attr args line o)
      super_method-KeepsFrames obj r attr line none = λ s. refl
      super_method-KeepsFrames obj r attr line (some (fn, c)) =
          bind-KeepsFrames args _ args_keep (λ vs.
            in_frame_of-KeepsFrames (bound_self objects obj vs) c _
              (function_keeps fn (super_args objects obj vs) [] line))

      attr_method-KeepsFrames :
          (r : V) (attr : Text) (line : ℕ) (o : Option V)
          → KeepsFrames (attr_method objects r attr args line o)
      attr_method-KeepsFrames r attr line none = λ s. refl
      attr_method-KeepsFrames r attr line (some m) =
          bind-KeepsFrames args _ args_keep (λ vs. call_keeps m (r ∷ vs) line)

      dispatch-KeepsFrames :
          (v : Receiver) (r : V) (attr : Text) (env line : ℕ)
          → KeepsFrames (dispatch objects v r attr args env line)
      dispatch-KeepsFrames (instance i) r attr env line s =
          method_or-KeepsFrames i r line _ (objects.lookup_method (objects.class_of i s) attr s)
            (field_or-KeepsFrames line _ (objects.field i attr s)
              (function_or_fail-KeepsFrames r attr line (objects.function_named env attr s)))
            s
      dispatch-KeepsFrames (super obj k) r attr env line s =
          super_method-KeepsFrames obj r attr line (objects.lookup_method k attr s) s
      dispatch-KeepsFrames other r attr env line s =
          attr_method-KeepsFrames r attr line (objects.get_attr r attr s) s

      -- A method call leaves the frames as they are, where its arguments do.
      pub call_method-KeepsFrames :
          (r : V) (attr : Text) (env line : ℕ)
          → KeepsFrames (call_method objects r attr args env line)
      unfolding call_method
      call_method-KeepsFrames r attr env line =
          dispatch-KeepsFrames (objects.view r) r attr env line

    piped_method-KeepsFrames :
        (i : ℕ) (r : V) (attr : Text) (vs : List V) (line : ℕ) (o : Option (Fn × ℕ))
        → KeepsFrames (piped_method objects i r attr vs line o)
    piped_method-KeepsFrames i r attr vs line none = λ s. refl
    piped_method-KeepsFrames i r attr vs line (some (fn, c)) =
        in_frame-KeepsFrames _ _ (function_keeps fn (r ∷ vs) [] line)

    piped_super-KeepsFrames :
        (obj : Option ℕ) (r : V) (attr : Text) (vs : List V) (line : ℕ) (o : Option (Fn × ℕ))
        → KeepsFrames (piped_super objects obj r attr vs line o)
    piped_super-KeepsFrames obj r attr vs line none = λ s. refl
    piped_super-KeepsFrames obj r attr vs line (some (fn, c)) =
        in_frame-KeepsFrames _ _ (function_keeps fn (super_args objects obj vs) [] line)

    piped_attr-KeepsFrames :
        (r : V) (attr : Text) (vs : List V) (line : ℕ) (o : Option V)
        → KeepsFrames (piped_attr objects r attr vs line o)
    piped_attr-KeepsFrames r attr vs line none = λ s. refl
    piped_attr-KeepsFrames r attr vs line (some m) = call_keeps m (r ∷ vs) line

    piped_dispatch-KeepsFrames :
        (v : Receiver) (r : V) (attr : Text) (vs : List V) (line : ℕ)
        → KeepsFrames (piped_dispatch objects v r attr vs line)
    piped_dispatch-KeepsFrames (instance i) r attr vs line s =
        piped_method-KeepsFrames i r attr vs line
          (objects.lookup_method (objects.class_of i s) attr s) s
    piped_dispatch-KeepsFrames (super obj k) r attr vs line s =
        piped_super-KeepsFrames obj r attr vs line (objects.lookup_method k attr s) s
    piped_dispatch-KeepsFrames other r attr vs line s =
        piped_attr-KeepsFrames r attr vs line (objects.get_attr r attr s) s

    -- So does a piped method call.
    pub pipe_method-KeepsFrames :
        (r : V) (attr : Text) (vs : List V) (line : ℕ)
        → KeepsFrames (pipe_method objects r attr vs line)
    unfolding pipe_method
    pipe_method-KeepsFrames r attr vs line =
        piped_dispatch-KeepsFrames (objects.view r) r attr vs line

    constructed-KeepsFrames :
        (inst : V) (fs : List Frame) (r : Outcome V X V × S)
        → objects.frames r.1 ≡ fs
        → objects.frames (constructed objects inst r).1 ≡ fs
    constructed-KeepsFrames inst fs (ok v, s) h = h
    constructed-KeepsFrames inst fs (err (return_signal v), s) h = h
    constructed-KeepsFrames inst fs (err break_signal, s) h = h
    constructed-KeepsFrames inst fs (err continue_signal, s) h = h
    constructed-KeepsFrames inst fs (err (raise_signal x l), s) h = h
    constructed-KeepsFrames inst fs (err (runtime_error l m), s) h = h

    module _
        (new_keeps : (c : ℕ) (s : S)
          → objects.frames (objects.new_instance c s).0 ≡ objects.frames s)
        (message_keeps : (i : ℕ) (v : V) (s : S)
          → objects.frames (objects.set_message i v s) ≡ objects.frames s) where
      construct-KeepsFrames :
          (c : ℕ) (vs : List V) (kws : List (Text × V)) (line i : ℕ) (o : Option (Fn × ℕ))
          → KeepsFrames (construct objects c vs kws line i o)
      construct-KeepsFrames c vs kws line i none s =
          if_split (λ t. objects.frames t ≡ objects.frames s) (objects.is_exception_class c s) _ s
            (λ _. message_keeps i _ s) (λ _. refl)
      construct-KeepsFrames c vs kws line i (some (fn, k)) s =
          constructed-KeepsFrames (objects.instance_value i) (objects.frames s) _ (
            in_frame-KeepsFrames _ _ (function_keeps fn (objects.instance_value i ∷ vs) kws line) s)

      -- So does an instantiation.
      pub instantiate-KeepsFrames :
          (c : ℕ) (vs : List V) (kws : List (Text × V)) (line : ℕ)
          → KeepsFrames (instantiate objects c vs kws line)
      unfolding instantiate
      instantiate-KeepsFrames c vs kws line s =
          let t = (objects.new_instance c s).0 in
          construct-KeepsFrames c vs kws line (objects.new_instance c s).1
            (objects.constructor_of c t) t
          ∙ new_keeps c s
