-- ===== src/Driver/ReadOnly.antt =====
-- readonly.rs: a driver that forwards reads and the capabilities, and nothing else.
use bhtune.Common.{◌≡◌, refl, ◌∙◌, ap, sym, List, [], ◌∷◌, ◌++◌}
use bhtune.Common.Text.{Text}
use bhtune.Common.Result.{Result, err}
use bhtune.Driver.{
  Driver, TagWrite, DriverError, unsupported, NamespaceCall, capabilities, not_supported,
}

module _ {S F N E : Type 0} (inner : Driver S F N E) where
  unfoldable pub read_only_namespace : NamespaceCall → S → Result (DriverError E) N × S
  unfolding not_supported
  read_only_namespace capabilities s = inner.namespace capabilities s
  read_only_namespace call s = not_supported call s

  abbrev pub read_only : Driver S F N E
  read_only = record {
    read = λ tags s. inner.read tags s;
    write = λ tag v s. (err (unsupported "write"), s);
    namespace = read_only_namespace;
  }

-- A call of a driver, and the state that it leaves.
pub data DriverCall (F : Type 0) : Type 0 where
  read_call : List Text → DriverCall F
  write_call : Text → TagWrite F → DriverCall F
  namespace_call : NamespaceCall → DriverCall F

module _ {S F N E : Type 0} (d : Driver S F N E) where
  abbrev pub after_call : DriverCall F → S → S
  after_call (read_call tags) s = (d.read tags s).1
  after_call (write_call tag v) s = (d.write tag v s).1
  after_call (namespace_call c) s = (d.namespace c s).1

  abbrev pub after_calls : List (DriverCall F) → S → S
  after_calls [] s = s
  after_calls (c ∷ cs) s = after_calls cs (after_call c s)

-- The calls that change no controller and no namespace index.
abbrev pub forwarded : {F : Type 0} → DriverCall F → List (DriverCall F)
forwarded (read_call tags) = read_call tags ∷ []
forwarded (write_call tag v) = []
forwarded (namespace_call capabilities) = namespace_call capabilities ∷ []
forwarded (namespace_call c) = []

abbrev pub all_forwarded : {F : Type 0} → List (DriverCall F) → List (DriverCall F)
all_forwarded [] = []
all_forwarded (c ∷ cs) = forwarded c ++ all_forwarded cs

module _ {S F N E : Type 0} (inner : Driver S F N E) where
  after_calls-append :
      (cs ds : List (DriverCall F)) (s : S)
      → after_calls inner (cs ++ ds) s ≡ after_calls inner ds (after_calls inner cs s)
  after_calls-append [] ds s = refl
  after_calls-append (c ∷ cs) ds s = after_calls-append cs ds (after_call inner c s)

  after_call-read_only :
      (c : DriverCall F) (s : S)
      → after_call (read_only inner) c s ≡ after_calls inner (forwarded c) s
  unfolding read_only_namespace
  after_call-read_only (read_call tags) s = refl
  after_call-read_only (write_call tag v) s = refl
  after_call-read_only (namespace_call capabilities) s = refl
  after_call-read_only (namespace_call c) s = refl

  -- Whatever is called through a read-only wrapper, the inner driver is left as by the reads and the
  -- capabilities calls alone, in their order: no write and no browsing or index call reaches it.
  pub after_calls-read_only :
      (cs : List (DriverCall F)) (s : S)
      → after_calls (read_only inner) cs s ≡ after_calls inner (all_forwarded cs) s
  after_calls-read_only [] s = refl
  after_calls-read_only (c ∷ cs) s =
      after_calls-read_only cs (after_call (read_only inner) c s)
      ∙ ap (after_calls inner (all_forwarded cs)) (after_call-read_only c s)
      ∙ sym (after_calls-append (forwarded c) (all_forwarded cs) s)
