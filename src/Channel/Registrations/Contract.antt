-- ===== src/Channel/Registrations/Contract.antt =====
-- What `register` promises of the registries that it installs.
use mcp_gtw.Base.{
  ℕ, String, true, false, Option, none, some, List, [], ◌∷◌, ◌++◌, ◌≡◌, refl, sym, ap, arith,
  text_eq, ◌==◌, length, Bool-cases, inl, inr, subst, join, if◌then◌else◌,
}
use mcp_gtw.Json.{Json, Fields, object}
use mcp_gtw.Json.Text.{dumps, utf8_size}
use mcp_gtw.Errors.{Result, ok, err, bind-eq-ok}
use mcp_gtw.Settings.{Settings, over_limit}
use mcp_gtw.Protocol.Words
use mcp_gtw.Dict.{Dict, get, set, has}
use mcp_gtw.Dict.Laws.{IsDistinct, set-IsDistinct}
use mcp_gtw.Libraries.{Libraries, Parsed, valid, invalid}
use mcp_gtw.Channel.{Channel, World, Tool, CompiledTool, Entry}
use mcp_gtw.Channel.Provider.{Side, side, side-notify}
use mcp_gtw.Channel.Registrations.{
  or_raise, require, check_output, add_tool, add_entry, guard_encoded, guard_size, guard_count,
  compile_tool, compile_each, compile_tools, compile_entry, compile_named, list_changed,
  register_locked, register,
}

-- an item within the configured size in bytes
abbrev Fits : Settings → Fields → Type 0
Fits s raw = over_limit s.maximum_tool_definition_bytes (utf8_size (dumps (object raw))) ≡ false

guard_size-Fits :
    (s : Settings) (raw : Fields) (label : String) (done : Unit {0})
    → guard_size s raw label ≡ ok done
    → Fits s raw
unfolding guard_size guard_encoded
guard_size-Fits s raw label done h = go s.maximum_tool_definition_bytes (dumps (object raw)) h
  where
    go :
        (maximum : Option ℕ) (cs : List ℕ)
        → guard_encoded maximum cs label ≡ ok done
        → over_limit maximum (utf8_size cs) ≡ false
    go none cs e = refl
    go (some maximum) cs e = ground arith

or_raise-valid {ℓ} :
    {A : Type ℓ} (p : Parsed A) (message : String) (a : A) → or_raise p message ≡ ok a → p ≡ valid a
or_raise-valid (valid b) message a h = cc h
or_raise-valid (invalid reason) message a h = cc

-- A listed tool, with the item that registered it: the model of that item, which is within the
-- configured size; under its own name, with its own schemas, which the validator accepts.
pub record IsListed (lib : Libraries) (s : Settings) (raw : Fields) (name : String)
    (t : CompiledTool) : Type 0 where
  pub fits : Fits s raw
  pub parsed : lib.parse_tool raw ≡ valid t.definition
  pub named : name ≡ t.definition.name
  pub input_ok : lib.check_schema t.input_validator ≡ valid tt
  pub output_ok :
      (schema : Json) → t.output_validator ≡ some schema → lib.check_schema schema ≡ valid tt
  pub input_own : t.input_validator ≡ t.definition.input_schema
  pub output_own : t.output_validator ≡ t.definition.output_schema

-- the entries of a dictionary, in their order, and the items that they stand for
abbrev pub Each {ℓ} :
    {V : Type ℓ} → (Fields → String → V → Type 0) → List Fields → Dict String V → Type 0
Each P [] [] = Unit
Each P (raw ∷ items) ((k, v) ∷ d) = P raw k v × Each P items d
Each P [] (entry ∷ d) = ⊥
Each P (raw ∷ items) [] = ⊥

Each-set {ℓ} :
    {V : Type ℓ} (P : Fields → String → V → Type 0) (items : List Fields) (d : Dict String V)
    (raw : Fields) (k : String) (v : V)
    → Each P items d
    → P raw k v
    → get d k ≡ none
    → Each P (items ++ raw ∷ []) (set d k v)
unfolding set get
Each-set P [] [] raw k v h p fresh = (p, tt)
Each-set P [] (entry ∷ d) raw k v h p fresh = absurd h
Each-set P (item ∷ items) [] raw k v h p fresh = absurd h
Each-set P (item ∷ items) ((j, w) ∷ d) raw k v h p fresh = elim (Bool-cases (j == k)) [
  | inl e ↦ cc (rw e at fresh)
  | inr e ↦ rw e (h.0, Each-set P items d raw k v h.1 p (rw e at fresh))
]

Each-length {ℓ} :
    {V : Type ℓ} (P : Fields → String → V → Type 0) (items : List Fields) (d : Dict String V)
    → Each P items d
    → length d ≡ length items
Each-length P [] [] h = refl
Each-length P [] (entry ∷ d) h = absurd h
Each-length P (item ∷ items) [] h = absurd h
Each-length P (item ∷ items) (entry ∷ d) h = ground (arith, Each-length P items d h.1)

-- what one turn of a compilation does: it adds one entry for its item, under a key that was free
record Extends {V : Type 0} (P : Fields → String → V → Type 0) (raw : Fields) (d d' : Dict String V)
    : Type 0 where
  key : String
  entry : V
  fresh : get d key ≡ none
  holds : P raw key entry
  stored : d' ≡ set d key entry

check_output-valid :
    (lib : Libraries) (tool : Tool) (done : Unit {0}) (schema : Json)
    → check_output lib tool ≡ ok done
    → tool.output_schema ≡ some schema
    → lib.check_schema schema ≡ valid tt
check_output-valid lib tool done schema h e = go tool.output_schema h e
  where
    go :
        (o : Option Json)
        → (elim o [
          | none ↦ ok tt
          | some schema ↦ or_raise (lib.check_schema schema) "Invalid JSON Schema for tool: "
        ])
          ≡ ok done
        → o ≡ some schema
        → lib.check_schema schema ≡ valid tt
    go none h e = cc
    go (some other) h e = cc (e, or_raise-valid (lib.check_schema other) _ done h)

add_tool-Extends :
    (lib : Libraries) (s : Settings) (d d' : Dict String CompiledTool) (raw : Fields) (tool : Tool)
    → Fits s raw
    → lib.parse_tool raw ≡ valid tool
    → add_tool lib d tool ≡ ok d'
    → Extends (IsListed lib s) raw d d'
unfolding add_tool
add_tool-Extends lib s d d' raw tool fits parsed h =
    let (_, first, h1) =
      bind-eq-ok
        (require (if has d tool.name then false else true) (join "Duplicate tool name: " tool.name))
        _ h in
    let (_, second, h2) = bind-eq-ok (or_raise (lib.check_schema tool.input_schema) _) _ h1 in
    let (done, third, h3) = bind-eq-ok (check_output lib tool) _ h2 in
    record {
      key = tool.name;
      entry = record {
        definition = tool;
        input_validator = tool.input_schema;
        output_validator = tool.output_schema;
      };
      fresh = ground (arith, first);
      holds = record {
        fits = fits;
        parsed = parsed;
        named = refl;
        input_ok = or_raise-valid (lib.check_schema tool.input_schema) _ _ second;
        output_ok = λ schema e. check_output-valid lib tool done schema third e;
        input_own = refl;
        output_own = refl;
      };
      stored = cc h3;
    }

compile_tool-Extends :
    (lib : Libraries) (s : Settings) (d d' : Dict String CompiledTool) (raw : Fields)
    → compile_tool lib s d raw ≡ ok d'
    → Extends (IsListed lib s) raw d d'
unfolding compile_tool
compile_tool-Extends lib s d d' raw h =
    let (done, fits, h1) = bind-eq-ok (guard_size s raw "Tool definition") _ h in
    let (tool, parsed, h2) = bind-eq-ok (or_raise (lib.parse_tool raw) _) _ h1 in
    add_tool-Extends lib s d d' raw tool (guard_size-Fits s raw _ done fits)
      (or_raise-valid (lib.parse_tool raw) _ tool parsed) h2

-- an entry of a named registry: the model of its item, which is within the configured size, under
-- its identifier
pub record IsNamed (model : Fields → Parsed Entry) (s : Settings) (raw : Fields) (key : String)
    (entry : Entry) : Type 0 where
  pub fits : Fits s raw
  pub parsed : model raw ≡ valid entry
  pub named : key ≡ entry.identifier

compile_entry-Extends :
    (model : Fields → Parsed Entry) (s : Settings) (label : String) (d d' : Dict String Entry)
    (raw : Fields)
    → compile_entry model s label d raw ≡ ok d'
    → Extends (IsNamed model s) raw d d'
unfolding compile_entry add_entry
compile_entry-Extends model s label d d' raw h =
    let (done, fits, h1) = bind-eq-ok (guard_size s raw _) _ h in
    let (entry, parsed, h2) = bind-eq-ok (or_raise (model raw) _) _ h1 in
    record {
      key = entry.identifier;
      entry = entry;
      fresh = ground (arith, h2);
      holds = record {
        fits = guard_size-Fits s raw _ done fits;
        parsed = or_raise-valid (model raw) _ entry parsed;
        named = refl;
      };
      stored = ground (arith, h2);
    }

-- a compilation that did not raise: an entry for each item, in their order, and no key twice
pub record Compiles {V : Type 0} (P : Fields → String → V → Type 0) (items : List Fields)
    (d : Dict String V) : Type 0 where
  pub distinct : IsDistinct d
  pub each : Each P items d

append_assoc :
    (xs : List Fields) (y : Fields) (ys : List Fields) → ((xs ++ y ∷ []) ++ ys) ≡ (xs ++ y ∷ ys)
append_assoc [] y ys = refl
append_assoc (x ∷ xs) y ys = ap (λ l. x ∷ l) (append_assoc xs y ys)

append_nil : (xs : List Fields) → (xs ++ []) ≡ xs
append_nil [] = refl
append_nil (x ∷ xs) = ap (λ l. x ∷ l) (append_nil xs)

module _ {V : Type 0} (P : Fields → String → V → Type 0)
    (turn : Dict String V → Fields → Result (Dict String V))
    (extends : (d d' : Dict String V) (raw : Fields)
      → turn d raw ≡ ok d'
      → Extends P raw d d') where
  Extends-Compiles :
      (items : List Fields) (raw : Fields) (d d' : Dict String V)
      → Extends P raw d d'
      → Compiles P items d
      → Compiles P (items ++ raw ∷ []) d'
  Extends-Compiles items raw d d' x c = rw x.stored (record {
    distinct = set-IsDistinct d x.key x.entry c.distinct;
    each = Each-set P items d raw x.key x.entry c.each x.holds x.fresh;
  })

  compile_each-Compiles :
      (items : List Fields) (d d' : Dict String V) (raw : List Fields)
      → Compiles P items d
      → compile_each turn d raw ≡ ok d'
      → Compiles P (items ++ raw) d'
  unfolding compile_each
  compile_each-Compiles items d d' [] c h =
      let e : d ≡ d' = ground (arith, h) in
      subst (λ l. Compiles P l d') (sym (append_nil items)) (subst (Compiles P items) e c)
  compile_each-Compiles items d d' (item ∷ raw) c h =
      go (turn d item) refl (λ next. compile_each-Compiles (items ++ item ∷ []) next d' raw)
    where
      go :
          (r : Result (Dict String V))
          → turn d item ≡ r
          → ((next : Dict String V)
              → Compiles P (items ++ item ∷ []) next
              → compile_each turn next raw ≡ ok d'
              → Compiles P ((items ++ item ∷ []) ++ raw) d')
          → Compiles P (items ++ item ∷ raw) d'
      go (ok next) e ih =
          subst (λ l. Compiles P l d') (append_assoc items item raw)
            (ih next (Extends-Compiles items item d next (extends d next item e) c)
              (rw (e, compile_each) at h))
      go (err x) e ih = cc (rw (e, compile_each) at h)

compile_tools-Compiles :
    (lib : Libraries) (s : Settings) (raw : List Fields) (d : Dict String CompiledTool)
    → compile_tools lib s raw ≡ ok d
    → Compiles (IsListed lib s) raw d × (over_limit s.maximum_tools (length d) ≡ false)
unfolding compile_tools guard_count
compile_tools-Compiles lib s raw d h =
    let (_, room, h1) = bind-eq-ok (guard_count s (length raw) "tools") _ h in
    let c =
      compile_each-Compiles (IsListed lib s) (compile_tool lib s) (compile_tool-Extends lib s) [] []
        d raw (record { distinct = tt; each = tt }) h1 in
    (c, rw (Each-length (IsListed lib s) raw d c.each) (ground (arith, room)))

-- The same of resources, resource templates and prompts: one entry for each item in their order, the
-- model of that item under its own key, no key twice, each item within the configured size, and no
-- more than the configured number.
pub compile_named-Compiles :
    (model : Fields → Parsed Entry) (s : Settings) (label : String) (raw : List Fields)
    (d : Dict String Entry)
    → compile_named model s label raw ≡ ok d
    → Compiles (IsNamed model s) raw d × (over_limit s.maximum_tools (length d) ≡ false)
unfolding compile_named guard_count
compile_named-Compiles model s label raw d h =
    let (_, room, h1) = bind-eq-ok (guard_count s (length raw) (join label "s")) _ h in
    let c =
      compile_each-Compiles (IsNamed model s) (compile_entry model s label)
        (compile_entry-Extends model s label) [] [] d raw (record { distinct = tt; each = tt })
        h1 in
    (c, rw (Each-length (IsNamed model s) raw d c.each) (ground (arith, room)))

-- what a registration of tools leaves
abbrev pub IsRegistered : Libraries → List Fields → Channel → Result (Unit {0}) × Channel → Type 0
IsRegistered lib items c (ok done, d) =
    Compiles (IsListed lib c.settings) items d.tools
    × (over_limit c.settings.maximum_tools (length d.tools) ≡ false)
IsRegistered lib items c (err e, d) = d ≡ c

-- A registration of tools that raises leaves the channel as it was. One that does not makes the tools
-- of the channel one entry for each item, in their order: no more than the configured number, no name
-- twice, each item within the configured size, and its entry the tool that the library reads from it,
-- under the name of that tool and with its schemas, of which the validator accepted both.
pub register-IsRegistered :
    (lib : Libraries) (w : World) (items : List Fields) (c : Channel)
    → IsRegistered lib items c (register lib w Words.tools items c)
unfolding register register_locked side
register-IsRegistered lib w items c = go (compile_tools lib c.settings items) refl
  where
    go :
        (o : Result (Dict String CompiledTool))
        → compile_tools lib c.settings items ≡ o
        → IsRegistered lib items c (register lib w Words.tools items c)
    go (err e) h = rw (h, register, register_locked) refl
    go (ok compiled) h =
        rw (h, register, register_locked)
          (rw
            (ap (λ (s : Side). s.tools)
              (side-notify w (list_changed Words.tools) (record c { tools = compiled })))
            (compile_tools-Compiles lib c.settings items compiled h))
