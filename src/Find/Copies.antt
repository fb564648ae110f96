-- ===== src/Find/Copies.antt =====
-- file_system.rs: files of other nodes, read from their owner and from the copy in the cache.
use vpfs_iroh.Base.{
  ℕ, ◌+◌, ◌<◌, ◌^◌, Bool, false, none, some, [], ◌∷◌, length, success, failure, ok, ◌≡◌, ◌≢◌, sym,
  ap, ◌∙◌, subst, arith, inl, inr, List, List-cases, eq_refl,
}
use vpfs_iroh.Messages.{Location, CacheEntry, not_modified, DaemonResponse, location_eq}
use vpfs_iroh.Files.{Bytes, fs_read}
use vpfs_iroh.Codec.{IsLawful}
use vpfs_iroh.Lru.{IsLru, lookup, promote, erase}
use vpfs_iroh.Platform.{Platform}
use vpfs_iroh.State.{DaemonState}
use vpfs_iroh.Cache.{CacheItem, usize_mod}
use vpfs_iroh.Cache.Evict.{items, Accounted}
use vpfs_iroh.Cache.Store.{HasFreeUri}
use vpfs_iroh.Cache.Add.{IsAdded, add_cache_entry-IsAdded}
use vpfs_iroh.Wire.Frames.{IsStream}
use vpfs_iroh.Remote.Kept.{IsKept, IsKept-trans, IsKept-record}
use vpfs_iroh.Find.{read_remote}
use vpfs_iroh.Find.Answers.{
  Asked, looked_up, read_answer, not_modified_answer, Asked-IsKept, read_remote-not_modified,
  read_remote-sent,
}

module _ (P : Platform) (incoming outgoing : P.Stream → P.Net → Bytes)
    (finished : P.Stream → P.Net → Bool) (S : IsStream P incoming outgoing finished)
    (responses : IsLawful P.response_codec) (draws : ℕ) (location : Location) where
  -- The first read of a file.
  read_remote-IsAdded :
      (L : IsLru P.lru) (payloads : IsLawful P.bytes_codec) (s : DaemonState P) (bytes rest : Bytes)
      (A : Asked P incoming location s (read_answer P bytes rest))
      → s.disk.poisoned ≡ false
      → length (P.response_codec.to_vec (DaemonResponse.read (success tt))) < 256 ^ 8
      → length (P.bytes_codec.to_vec bytes) < 256 ^ 8
      → Accounted P s
      → HasFreeUri P draws s.disk
      → s.used_cache_bytes + length bytes < usize_mod
      → lookup location (items P s) ≡ none
      → (before : DaemonState P) × (s' : DaemonState P) × IsKept P (looked_up P location s) before
        × (read_remote P draws location s ≡ (ok (success bytes), s'))
        × IsAdded P before location bytes s'
  read_remote-IsAdded L payloads s bytes rest A unpoisoned fits fits' h free room absent =
      let K =
        Asked-IsKept P incoming outgoing finished S responses draws location s
          (read_answer P bytes rest) A in
      let (net, runs) =
        read_remote-sent P incoming outgoing finished S responses draws location payloads s bytes
          rest A unpoisoned fits fits' in
      let before : DaemonState P = record A.asked { net = net } in
      let same : items P before ≡ items P s =
        ap P.lru.iter K.cache ∙ L.iter-get location s.cache ∙ ground (arith, absent) in
      let (s', added, I) =
        add_cache_entry-IsAdded P L draws location bytes before
          (rw (K.disk, same, K.used_cache_bytes) h) (rw K.disk free) (rw K.used_cache_bytes room) in
      (
        before,
        s',
        IsKept-trans P (looked_up P location s) A.asked before K
            (IsKept-record P A.asked A.asked.connections net),
        runs s' added,
        I,
      )

  promote-first :
      (entry : CacheEntry) (others : List CacheItem)
      → (lookup location ((location, entry) ∷ others) ≡ some entry)
        × (promote location ((location, entry) ∷ others) ≡ (location, entry) ∷ others)
  unfolding lookup erase
  promote-first entry others = ground (arith, eq_refl location)

  -- The new entry is found in the first place, unless all were evicted.
  lookup-IsAdded :
      (s s' : DaemonState P) (bytes : Bytes) (I : IsAdded P s location bytes s')
      → items P s' ≢ []
      → (entry : CacheEntry) × (lookup location (items P s') ≡ some entry)
        × (fs_read entry.uri s'.disk ≡ some bytes)
        × (promote location (items P s') ≡ items P s')
  lookup-IsAdded s s' bytes I some_left =
      let (entry, dropped, order, kept) = I.newest in
      elim (List-cases (items P s')) [
        | inl none_left ↦ absurd (some_left none_left)
        | inr (item, others, e) ↦
            let first : item ≡ (location, entry) = cc (order, e) in
            let here : items P s' ≡ (location, entry) ∷ others = e ∙ ap (λ i. i ∷ others) first in
            (
              entry,
              ap (lookup location) here ∙ (promote-first entry others).0,
              (elim kept [ inl none_left ↦ absurd (some_left none_left) | inr there ↦ there ]),
              ap (promote location) here ∙ (promote-first entry others).1 ∙ sym here,
            )
      ]

  -- A second read, whose answer is that the file was not modified.
  read_remote-again :
      (L : IsLru P.lru) (before s' : DaemonState P) (bytes rest : Bytes)
      (I : IsAdded P before location bytes s')
      (A : Asked P incoming location s' (not_modified_answer P rest))
      → s'.disk.poisoned ≡ false
      → length (P.response_codec.to_vec (DaemonResponse.read (failure not_modified))) < 256 ^ 8
      → items P s' ≢ []
      → (s'' : DaemonState P) × (read_remote P draws location s' ≡ (ok (success bytes), s''))
        × (s''.disk ≡ s'.disk)
        × (items P s'' ≡ items P s')
  read_remote-again L before s' bytes rest I A unpoisoned fits some_left =
      let (entry, found, there, first) = lookup-IsAdded before s' bytes I some_left in
      let (s'', runs, disk, order) =
        read_remote-not_modified P incoming outgoing finished S responses draws location L s' entry
          bytes rest A unpoisoned fits found there in
      (s'', runs, disk, order ∙ first)

  -- With a cache that meets IsLru, a network that meets IsStream and lawful encodings of daemon
  -- responses and of bytes, the lengths of the encodings that come fitting in eight bytes, where
  -- the lock is not poisoned, the books of the cache are in order, a draw gives a free name, the
  -- count does not overflow, the location is not in the cache, the owner is reached and answers
  -- the Read with a success and the bytes, not all entries are evicted then, and the owner,
  -- reached and asked a second time, answers NotModified: both calls of read_remote return the
  -- bytes that the owner sent, and the second one leaves the files and the order of the cache as
  -- they are.
  pub read_remote-read_remote :
      (L : IsLru P.lru) (payloads : IsLawful P.bytes_codec) (s : DaemonState P)
      (bytes rest rest' : Bytes) (A : Asked P incoming location s (read_answer P bytes rest))
      (A' : Asked P incoming location
        (read_remote P draws location s).1
        (not_modified_answer P rest'))
      → s.disk.poisoned ≡ false
      → length (P.response_codec.to_vec (DaemonResponse.read (success tt))) < 256 ^ 8
      → length (P.response_codec.to_vec (DaemonResponse.read (failure not_modified))) < 256 ^ 8
      → length (P.bytes_codec.to_vec bytes) < 256 ^ 8
      → Accounted P s
      → HasFreeUri P draws s.disk
      → s.used_cache_bytes + length bytes < usize_mod
      → lookup location (items P s) ≡ none
      → items P (read_remote P draws location s).1 ≢ []
      → ((read_remote P draws location s).0 ≡ ok (success bytes))
        × ((s'' : DaemonState P) × (read_remote P draws location (read_remote P draws location s).1
              ≡ (ok (success bytes), s''))
            × (s''.disk ≡ (read_remote P draws location s).1.disk)
            × (items P s'' ≡ items P (read_remote P draws location s).1))
  read_remote-read_remote L payloads s bytes rest rest' A A' unpoisoned fits fits_err fits' h free
        room absent some_left =
      let (before, s', K, runs, I) =
        read_remote-IsAdded L payloads s bytes rest A unpoisoned fits fits' h free room absent in
      (
        ap (λ r. r.0) runs,
        subst
            (λ (t : DaemonState P).
              (s'' : DaemonState P) × (read_remote P draws location t ≡ (ok (success bytes), s''))
              × (s''.disk ≡ t.disk)
              × (items P s'' ≡ items P t))
            (sym (ap (λ r. r.1) runs))
            (read_remote-again L before s' bytes rest' I
              (subst
                (λ (t : DaemonState P). Asked P incoming location t (not_modified_answer P rest'))
                (ap (λ r. r.1) runs) A')
              (I.poisoned ∙ ap (λ d. d.poisoned) K.disk ∙ unpoisoned) fits_err
              (subst (λ (t : DaemonState P). items P t ≢ []) (ap (λ r. r.1) runs) some_left)),
      )
