-- ===== src/Vss/Keys.antt =====
-- rust/src/vss/store.rs, `KeyProvenance` and `MonitorKeySet`: which monitors the store tracks, and
-- for which of them there is evidence that a blob exists remotely under that key. The map stands for
-- a BTreeMap; the order of its entries is not modelled.
use zinqq_kmp.Common.{
  String, Bool, true, false, List, [], ◌∷◌, Assoc, lookup, insert, contains, is_some, if◌then◌else◌,
}

pub data KeyProvenance : Type 0 where
  publishable_key unverified : KeyProvenance

abbrev pub MonitorKeySet : Type 0
MonitorKeySet = Assoc KeyProvenance

-- `keys.into_iter().map(|key| (key, provenance)).collect()`
unfoldable pub with_provenance : List String → KeyProvenance → MonitorKeySet
with_provenance [] p = []
with_provenance (k ∷ ks) p = insert k p (with_provenance ks p)

unfoldable pub tracked_only : List String → MonitorKeySet
unfolding with_provenance
tracked_only keys = with_provenance keys KeyProvenance.unverified

unfoldable pub all_publishable : List String → MonitorKeySet
unfolding with_provenance
all_publishable keys = with_provenance keys KeyProvenance.publishable_key

unfoldable pub from_parts : List String → List String → MonitorKeySet
from_parts [] proven = []
from_parts (k ∷ ks) proven =
    insert k (if contains proven k then KeyProvenance.publishable_key else KeyProvenance.unverified)
      (from_parts ks proven)

-- `keys.entry(key).or_insert(KeyProvenance::Unverified)`
unfoldable pub insert_unverified : String → MonitorKeySet → MonitorKeySet
insert_unverified key m =
    if is_some (lookup key m) then m else insert key KeyProvenance.unverified m

unfoldable pub mark_publishable : String → MonitorKeySet → MonitorKeySet
mark_publishable key m = insert key KeyProvenance.publishable_key m

unfoldable pub extend_publishable : List String → MonitorKeySet → MonitorKeySet
unfolding mark_publishable
extend_publishable [] m = m
extend_publishable (k ∷ ks) m = extend_publishable ks (mark_publishable k m)

abbrev pub is_proven : KeyProvenance → Bool
is_proven KeyProvenance.publishable_key = true
is_proven KeyProvenance.unverified = false

unfoldable pub publishable : MonitorKeySet → List String
publishable [] = []
publishable ((k, p) ∷ m) = let rest = publishable m in if is_proven p then k ∷ rest else rest
