-- ===== src/Elf/Symbols/Visit.antt =====
-- What a visit of one symbol adds in `extract_symbols` of src/elf.rs.
use probe_run.Base.{
  ℕ, ◌≡◌, refl, sym, ap, subst, Bool, true, false, not, ◌&&◌, ◌||◌, Option, none, some, List, [],
  ◌∷◌, ◌==◌, if◌then◌else◌, Bool-cases, inl, inr, arith,
}
use probe_run.Base.Text.{Str, str, str_eq, str_eq_sound}
use probe_run.Cortexm.{clear_thumb_bit}
use probe_run.Result.{Result, ok, err, panic, ok-injective, >>=-eq-ok}
use probe_run.Elf.ObjectFile.{Symbol}
use probe_run.Elf.Symbols.{
  Scan, expect_u32, is_heap_symbol, by_name, by_address, visit, visit_named,
}

-- a test on a name that can be read
abbrev pub named : (Str → Bool) → Symbol → Bool
named p symbol = elim symbol.name [ ok name ↦ p name | _ ↦ false ]

-- the later of two finds
abbrev pub later : Option ℕ → Option ℕ → Option ℕ
later none first = first
later (some a) first = some a

-- the address of the last symbol of a name
abbrev pub last_named : Str → List Symbol → Option ℕ
last_named name [] = none
last_named name (symbol ∷ rest) =
    later (last_named name rest)
      (if named (λ n. str_eq n name) symbol then some symbol.address else none)

abbrev pub clear_all : Option ℕ → Option ℕ
clear_all none = none
clear_all (some a) = some (clear_thumb_bit a)

pub later_assoc : (a b c : Option ℕ) → later a (later b c) ≡ later (later a b) c
later_assoc none b c = refl
later_assoc (some x) b c = refl

pub clear_all-later : (a b : Option ℕ) → clear_all (later a b) ≡ later (clear_all a) (clear_all b)
clear_all-later none b = refl
clear_all-later (some x) b = refl

-- what one symbol, or a list of them, adds to the pass
abbrev pub Adds : (main rtt : Option ℕ) → Bool → Scan → Scan → Type 0
Adds main rtt heap before after =
    (after.main_fn_address ≡ later (clear_all main) before.main_fn_address)
    × (after.rtt_buffer_address ≡ later rtt before.rtt_buffer_address)
    × (after.program_uses_heap ≡ before.program_uses_heap || heap)

abbrev find_if : Bool → ℕ → Option ℕ
find_if hit a = if hit then some a else none

pub or_false : (b : Bool) → b ≡ b || false
or_false true = refl
or_false false = refl

by_name-Adds :
    (name : Str) (address : ℕ) (scan : Scan)
    → Adds
        (find_if (str_eq name (str "main")) address)
        (find_if (str_eq name (str "_SEGGER_RTT")) address)
        (is_heap_symbol name)
        scan
        (by_name name address scan)
unfolding by_name
by_name-Adds name address scan = elim (Bool-cases (str_eq name (str "main"))) [
  | inl main ↦
      rw (str_eq_sound name (str "main") main) (refl, refl, or_false scan.program_uses_heap)
  | inr m ↦ elim (Bool-cases (str_eq name (str "_SEGGER_RTT"))) [
    | inl rtt ↦
        rw (str_eq_sound name (str "_SEGGER_RTT") rtt) (refl, refl, or_false scan.program_uses_heap)
    | inr r ↦ rw m (rw r (heap (is_heap_symbol name) scan.program_uses_heap refl))
  ]
]
  where
    heap :
        (h used : Bool)
        → scan.program_uses_heap ≡ used
        → Adds none none h scan (
            if h && not scan.program_uses_heap
            then record scan { program_uses_heap = true }
            else scan)
    heap true true e = rw e (refl, refl, refl)
    heap true false e = rw e (refl, refl, refl)
    heap false true e = (refl, refl, or_false scan.program_uses_heap)
    heap false false e = (refl, refl, or_false scan.program_uses_heap)

by_address-Adds :
    (reset address : ℕ) (symbol : Symbol) (main rtt : Option ℕ) (heap : Bool) (before scan : Scan)
    → Adds main rtt heap before scan
    → Adds main rtt heap before (by_address reset symbol address scan)
unfolding by_address
by_address-Adds reset address symbol main rtt heap before scan h =
    elim (Bool-cases (address == reset && not (symbol.size == 0))) [
      | inl e ↦ rw e h
      | inr e ↦ rw e h
    ]

expect_u32-eq-ok : (x y : ℕ) → expect_u32 x ≡ ok y → x ≡ y
unfolding expect_u32
expect_u32-eq-ok x y h = ground arith

abbrev pub SymbolAdds : Symbol → Scan → Scan → Type 0
SymbolAdds symbol =
    Adds (find_if (named (λ n. str_eq n (str "main")) symbol) symbol.address)
      (find_if (named (λ n. str_eq n (str "_SEGGER_RTT")) symbol) symbol.address)
      (named is_heap_symbol symbol)

Adds-transport :
    (main main' rtt rtt' : Option ℕ) (heap heap' : Bool) (a b : Scan)
    → main ≡ main'
    → rtt ≡ rtt'
    → heap ≡ heap'
    → Adds main' rtt' heap' a b
    → Adds main rtt heap a b
Adds-transport main main' rtt rtt' heap heap' a b m r h adds = rw m (rw r (rw h adds))

-- the test on a name that is known
named_as :
    (p : Str → Bool) (symbol : Symbol) (r : Result Str)
    → symbol.name ≡ r
    → named p symbol ≡ elim r [ ok name ↦ p name | _ ↦ false ]
named_as p symbol r e = ap (λ q. elim q [ ok name ↦ p name | _ ↦ false ]) e

find_as :
    (p : Str → Bool) (symbol : Symbol) (r : Result Str)
    → symbol.name ≡ r
    → find_if (named p symbol) symbol.address
      ≡ find_if (elim r [ ok name ↦ p name | _ ↦ false ]) symbol.address
find_as p symbol r e = ap (λ hit. find_if hit symbol.address) (named_as p symbol r e)

visit_named-Adds :
    (reset : ℕ) (symbol : Symbol) (scan next : Scan) (r : Result Str)
    → visit_named reset symbol scan r ≡ ok next
    → Adds
        (find_if (elim r [ ok name ↦ str_eq name (str "main") | _ ↦ false ]) symbol.address)
        (find_if (elim r [ ok name ↦ str_eq name (str "_SEGGER_RTT") | _ ↦ false ]) symbol.address)
        (elim r [ ok name ↦ is_heap_symbol name | _ ↦ false ])
        scan
        next
unfolding visit_named
visit_named-Adds reset symbol scan next (ok name) h =
    visited (>>=-eq-ok (expect_u32 symbol.address) _ h)
  where
    visited :
        (address : ℕ) × (expect_u32 symbol.address ≡ ok address)
          × (ok (by_address reset symbol address (by_name name address scan)) ≡ ok next)
        → Adds
            (find_if (str_eq name (str "main")) symbol.address)
            (find_if (str_eq name (str "_SEGGER_RTT")) symbol.address)
            (is_heap_symbol name)
            scan
            next
    visited (address, fits, made) =
        subst
          (λ a.
            Adds (find_if (str_eq name (str "main")) a)
              (find_if (str_eq name (str "_SEGGER_RTT")) a) (is_heap_symbol name) scan next)
          (sym (expect_u32-eq-ok symbol.address address fits))
          (subst
            (Adds (find_if (str_eq name (str "main")) address)
              (find_if (str_eq name (str "_SEGGER_RTT")) address) (is_heap_symbol name) scan)
            (ok-injective made)
            (by_address-Adds reset address symbol _ _ _ scan (by_name name address scan)
              (by_name-Adds name address scan)))
visit_named-Adds reset symbol scan next (err x) h =
    subst (Adds none none false scan) (ok-injective h) (refl, refl, or_false scan.program_uses_heap)
visit_named-Adds reset symbol scan next (panic x) h =
    subst (Adds none none false scan) (ok-injective h) (refl, refl, or_false scan.program_uses_heap)

pub visit-SymbolAdds :
    (reset : ℕ) (symbol : Symbol) (scan next : Scan)
    → visit reset symbol scan ≡ ok next
    → SymbolAdds symbol scan next
unfolding visit
visit-SymbolAdds reset symbol scan next h = visit_named-Adds reset symbol scan next symbol.name h
