-- ===== src/Portmap/Chain.antt =====
-- plugins/meta/portmap/chain.go and pkg/utils/iptables.go: a chain of iptables, set up, checked and
-- torn down. The iptables library is a record of the operations that are called, over a state of its
-- own; so is the parser of shell words.
pub mod Working
pub mod Idempotent
pub mod Settled
use containerz_plugin.Common.{
  ◌then◌, ℕ, Bool, true, false, ◌&&◌, not, List, [], ◌∷◌, ◌++◌, Option, none, some, Result, ok, err,
  if◌then◌else◌, ◌==◌, Text, text, text_eq, drop, length,
}

abbrev pub Rule : Type 0
Rule = List Text

-- An error of the library; one that is its own `Error` has an exit status.
pub data IptError : Type 0 where
  exit : ℕ → Bool → IptError
  other : IptError

-- `iptables.IPTables`: each operation takes a table and a chain.
pub record Ipt (S : Type 0) : Type 0 where
  pub chain_exists : S → Text → Text → Result IptError Bool
  pub new_chain : S → Text → Text → S × Result IptError (Unit {0})
  pub exists : S → Text → Text → Rule → Result IptError Bool
  pub insert : S → Text → Text → Rule → S × Result IptError (Unit {0})
  pub append : S → Text → Text → Rule → S × Result IptError (Unit {0})
  pub delete : S → Text → Text → Rule → S × Result IptError (Unit {0})
  pub clear_and_delete_chain : S → Text → Text → S × Result IptError (Unit {0})
  pub delete_chain : S → Text → Text → S × Result IptError (Unit {0})
  pub clear_chain : S → Text → Text → S × Result IptError (Unit {0})
  pub list : S → Text → Text → Result IptError (List Text)

pub record Chain : Type 0 where
  pub table : Text
  pub name : Text
  pub entry_chains : List Text
  pub entry_rules : List Rule
  pub rules : List Rule
  pub prepend_entry : Bool

pub data ChainError : Type 0 where
  ipt_failed : IptError → ChainError
  chain_missing rule_missing bad_rule no_iptables name_panicked words_panicked : ChainError

abbrev pub Outcome : Type 0 → Type 0
Outcome S = S × Result ChainError (Unit {0})

abbrev pub lifted : {S : Type 0} → S × Result IptError (Unit {0}) → Outcome S
lifted (s, ok _) = (s, ok tt)
lifted (s, err e) = (s, err (ipt_failed e))

-- An entry rule, which jumps to the chain.
abbrev pub jumping : Text → Rule → Rule
jumping name r = r ++ (text "-j" ∷ name ∷ [])

abbrev pub jumps : Text → List Rule → List Rule
jumps name [] = []
jumps name (r ∷ rs) = jumping name r ∷ jumps name rs

-- `NewChain` in `EnsureChain`: an error of exit status 1, or not of the library, is passed over.
unfoldable pub ensured : {S : Type 0} → S × Result IptError (Unit {0}) → Outcome S
ensured (s, ok _) = (s, ok tt)
ensured (s, err (exit status not_there)) =
    if status == 1 then (s, ok tt) else (s, err (ipt_failed (exit status not_there)))
ensured (s, err other) = (s, ok tt)

-- An error of `Delete` in `DeleteRule`: none of the rule's or the chain's absence.
unfoldable pub deleted : {S : Type 0} → S × Result IptError (Unit {0}) → Outcome S
deleted (s, ok _) = (s, ok tt)
deleted (s, err (exit status true)) = (s, ok tt)
deleted (s, err (exit status false)) =
    if status == 2 then (s, ok tt) else (s, err (ipt_failed (exit status false)))
deleted (s, err other) = (s, err (ipt_failed other))

module _ {S : Type 0} (ipt : Ipt S) where
  unfoldable pub ensure_chain_by : Text → Text → S → Result IptError Bool → Outcome S
  ensure_chain_by table name s (err e) = (s, err (ipt_failed e))
  ensure_chain_by table name s (ok true) = (s, ok tt)
  ensure_chain_by table name s (ok false) = ensured (ipt.new_chain s table name)

  unfoldable pub ensure_chain : Text → Text → S → Outcome S
  ensure_chain table name s = ensure_chain_by table name s (ipt.chain_exists s table name)

  unfoldable pub insert_unique_by : Text → Text → Bool → Rule → S → Result IptError Bool → Outcome S
  insert_unique_by table name prepend r s (err e) = (s, err (ipt_failed e))
  insert_unique_by table name prepend r s (ok true) = (s, ok tt)
  insert_unique_by table name true r s (ok false) = lifted (ipt.insert s table name r)
  insert_unique_by table name false r s (ok false) = lifted (ipt.append s table name r)

  unfoldable pub insert_unique : Text → Text → Bool → Rule → S → Outcome S
  insert_unique table name prepend r s =
      insert_unique_by table name prepend r s (ipt.exists s table name r)

  -- Each rule of a list, into one chain.
  unfoldable pub insert_all : Text → Text → Bool → List Rule → S → Outcome S
  insert_all table name prepend [] s = (s, ok tt)
  insert_all table name prepend (r ∷ rs) s =
      insert_unique table name prepend r s then insert_all table name prepend rs

  -- The entry rules, into each entry chain.
  unfoldable pub insert_entries : Text → Bool → List Rule → List Text → S → Outcome S
  insert_entries table prepend rs [] s = (s, ok tt)
  insert_entries table prepend rs (e ∷ es) s =
      insert_all table e prepend rs s then insert_entries table prepend rs es

  unfoldable pub setup : Chain → S → Outcome S
  setup c s =
      ensure_chain c.table c.name s
      then insert_all c.table c.name false c.rules
      then insert_entries c.table c.prepend_entry (jumps c.name c.entry_rules) c.entry_chains

  -- `DeleteChain`
  unfoldable pub chain_deleted : S × Result IptError (Unit {0}) → Outcome S
  chain_deleted (s, ok _) = (s, ok tt)
  chain_deleted (s, err (exit status true)) = (s, ok tt)
  chain_deleted (s, err (exit status false)) = (s, err (ipt_failed (exit status false)))
  chain_deleted (s, err other) = (s, err (ipt_failed other))

  unfoldable pub delete_chain : Text → Text → S → Outcome S
  delete_chain table name s = chain_deleted (ipt.delete_chain s table name)

  -- `ClearChain`, which creates the chain where it is missing
  unfoldable pub chain_cleared : Text → Text → S × Result IptError (Unit {0}) → Outcome S
  chain_cleared table name (s, ok _) = (s, ok tt)
  chain_cleared table name (s, err (exit status true)) = ensure_chain table name s
  chain_cleared table name (s, err (exit status false)) = (s, err (ipt_failed (exit status false)))
  chain_cleared table name (s, err other) = (s, err (ipt_failed other))

  unfoldable pub clear_chain : Text → Text → S → Outcome S
  clear_chain table name s = chain_cleared table name (ipt.clear_chain s table name)

  -- `checkRule`
  abbrev pub check_rule : Result IptError Bool → Bool
  check_rule (err e) = false
  check_rule (ok b) = b

  -- Each rule of a list, from the last.
  unfoldable pub check_all : S → Text → Text → List Rule → Bool
  check_all s table name [] = true
  check_all s table name (r ∷ rs) =
      let rest = check_all s table name rs in rest && check_rule (ipt.exists s table name r)

  unfoldable pub check_entries : S → Text → List Rule → List Text → Bool
  check_entries s table rs [] = true
  check_entries s table rs (e ∷ es) =
      let rest = check_entries s table rs es in check_all s table e rs && rest

  unfoldable pub check_by : Chain → S → Result IptError Bool → Result ChainError (Unit {0})
  check_by c s (err e) = err (ipt_failed e)
  check_by c s (ok false) = err chain_missing
  check_by c s (ok true) =
      if check_all s c.table c.name c.rules
        && check_entries s c.table (jumps c.name c.entry_rules) c.entry_chains
      then ok tt
      else err rule_missing

  unfoldable pub check : Chain → S → Result ChainError (Unit {0})
  check c s = check_by c s (ipt.chain_exists s c.table c.name)

  -- The entry rules of one chain, errors passed over.
  unfoldable pub delete_all : Text → Text → List Rule → S → S
  delete_all table name [] s = s
  delete_all table name (r ∷ rs) s = delete_all table name rs (ipt.delete s table name r).0

  unfoldable pub delete_entries : Text → List Rule → List Text → S → S
  delete_entries table rs [] s = s
  delete_entries table rs (e ∷ es) s = delete_entries table rs es (delete_all table e rs s)

  -- `strings.HasSuffix`
  abbrev pub has_suffix : Text → Text → Bool
  has_suffix suffix [] = text_eq suffix []
  has_suffix suffix (c ∷ cs) =
      let rest = has_suffix suffix cs in if text_eq suffix (c ∷ cs) then true else rest

  module _ (shell_words : Text → Option (List Text)) where
    abbrev pub delete_words : Text → Text → S → Option (List Text) → Outcome S
    delete_words table name s none = (s, err bad_rule)
    delete_words table name s (some (_ ∷ _ ∷ parts)) = deleted (ipt.delete s table name parts)
    delete_words table name s (some _) = (s, err words_panicked)

    -- The rules of one chain that jump to the chain, as the library lists them.
    unfoldable pub delete_references : Text → Text → Text → List Text → S → Outcome S
    delete_references table name entry [] s = (s, ok tt)
    delete_references table name entry (l ∷ ls) s =
        (if has_suffix (text "-j " ++ name) l
          then delete_words table entry s (shell_words l)
          else (s, ok tt))
        then delete_references table name entry ls

    -- The listing of one entry chain, without its head; an error or an empty listing is passed over.
    unfoldable pub search_chain : Text → Text → Text → S → Result IptError (List Text) → Outcome S
    search_chain table name entry s (err _) = (s, ok tt)
    search_chain table name entry s (ok []) = (s, ok tt)
    search_chain table name entry s (ok (_ ∷ ls)) = delete_references table name entry ls s

    unfoldable pub search_chains : Text → Text → List Text → S → Outcome S
    search_chains table name [] s = (s, ok tt)
    search_chains table name (e ∷ es) s =
        search_chain table name e s (ipt.list s table e) then search_chains table name es

    -- Behind the first attempt to delete the chain.
    unfoldable pub teardown_again : Chain → S × Result IptError (Unit {0}) → Outcome S
    teardown_again c (s, ok _) = (s, ok tt)
    teardown_again c (s, err _) =
        search_chains c.table c.name c.entry_chains s
        then (λ s'. lifted (ipt.clear_and_delete_chain s' c.table c.name))

    unfoldable pub teardown_all : Chain → S → Outcome S
    teardown_all c s =
        let s' = delete_entries c.table (jumps c.name c.entry_rules) c.entry_chains s in
        teardown_again c (ipt.clear_and_delete_chain s' c.table c.name)

    unfoldable pub teardown_by : Chain → S → Result IptError Bool → Outcome S
    teardown_by c s (ok false) = (s, ok tt)
    teardown_by c s (ok true) = teardown_all c s
    teardown_by c s (err _) = teardown_all c s

    unfoldable pub teardown : Chain → S → Outcome S
    teardown c s = teardown_by c s (ipt.chain_exists s c.table c.name)
