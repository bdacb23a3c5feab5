-- ===== src/Admin/Maintenance/Probed.antt =====
-- src/main/python/apache/aurora/admin/host_maintenance.py: what the
-- probe of a group says of one of its hosts.
use aurora_client.Base.{
  String, ◌≡◌, refl, Bool, true, false, not, ◌&&◌, ◌||◌, List, [], ◌∷◌, ◌==◌, ==_iff, string_eq, Eq,
  length, ltb, arith, inl, inr, Bool-cases, is_nil, all, all-append,
}
use aurora_client.Base.Sets.{member, member-union}
use aurora_client.Base.Dicts.{Dict, get, get_default, append_at, get-append_at}
use aurora_client.Client.Sla.Domain.{
  JobUpTimeLimit, JobUpTimeDetails, DomainVector, job_hosts, append_all, probe_job, probe_group,
  probe_groups,
}
use aurora_client.Admin.Maintenance.{unsafe_hosts, unsafe_in_all}

module _ {K : Type 0} ⦃e : Eq K⦄ where
  -- No job on the host is reported unsafe.
  unfoldable pub safe_at : Dict String (List (JobUpTimeDetails K)) → String → Bool
  safe_at probed host = all (λ details. details.safe) (get_default probed host [])

  safe_at-append_at :
      (d : Dict String (List (JobUpTimeDetails K))) (h : String) (x : JobUpTimeDetails K)
      (host : String)
      → safe_at (append_at d h x) host ≡ (safe_at d host && (not (h == host) || x.safe))
  unfolding safe_at
  safe_at-append_at d h x host = ground (
    arith,
    get-append_at d h x host,
    all-append (λ details. details.safe) (get_default d host []) (x ∷ []),
  )

  safe_at-append_all :
      (d : Dict String (List (JobUpTimeDetails K))) (hosts : List String) (x : JobUpTimeDetails K)
      (host : String)
      → safe_at (append_all d hosts x) host
        ≡ (safe_at d host && (not (member host hosts) || x.safe))
  unfolding append_all member
  safe_at-append_all d [] x host = ground arith
  safe_at-append_all d (h ∷ hosts) x host =
      ground
        (arith, safe_at-append_all (append_at d h x) hosts x host, safe_at-append_at d h x host)

  safe_before :
      (v : DomainVector K) (limit : JobUpTimeLimit) (hosts : List String) (jobs : List K)
      (probed : Dict String (List (JobUpTimeDetails K))) (host : String)
      → safe_at (probe_group v limit hosts jobs probed) host ≡ true
      → safe_at probed host ≡ true
  unfolding probe_group
  safe_before v limit hosts [] probed host h = h
  safe_before v limit hosts (j ∷ jobs) probed host h =
      let x = probe_job v limit (job_hosts v hosts j) j in
      ground (
        arith,
        safe_before v limit hosts jobs (append_all probed (job_hosts v hosts j) x) host h,
        safe_at-append_all probed (job_hosts v hosts j) x host,
      )

  pub probed_safe :
      (v : DomainVector K) (limit : JobUpTimeLimit) (hosts : List String) (jobs : List K)
      (probed : Dict String (List (JobUpTimeDetails K))) (host : String) (job : K)
      → safe_at (probe_group v limit hosts jobs probed) host ≡ true
      → member job jobs ≡ true
      → member host (job_hosts v hosts job) ≡ true
      → (probe_job v limit (job_hosts v hosts job) job).safe ≡ true
  unfolding probe_group member
  probed_safe v limit hosts [] probed host job h m there = cc
  probed_safe v limit hosts (j ∷ jobs) probed host job h m there =
      let x = probe_job v limit (job_hosts v hosts j) j in
      elim (Bool-cases (j == job)) [
        | inl same ↦ ground (
          arith,
          ==_iff j job,
          safe_before v limit hosts jobs (append_all probed (job_hosts v hosts j) x) host h,
          safe_at-append_all probed (job_hosts v hosts j) x host,
        )
        | inr other ↦
            probed_safe v limit hosts jobs (append_all probed (job_hosts v hosts j) x) host job h
              (ground arith) there
      ]

  pub unsafe_hosts_lem :
      (d : Dict String (List (JobUpTimeDetails K))) (host : String)
      → member host (unsafe_hosts d) ≡ false
      → safe_at d host ≡ true
  unfolding unsafe_hosts safe_at member get
  unsafe_hosts_lem [] host h = refl
  unsafe_hosts_lem ((j, ds) ∷ d) host h = ground (arith, unsafe_hosts_lem d host, ==_iff j host)

  pub probe_groups_lem :
      (v : DomainVector K) (limit : JobUpTimeLimit) (hosts : List String) (jobs : List K)
      (host : String)
      → member host (unsafe_in_all (probe_groups v limit ((hosts, jobs) ∷ []))) ≡ false
      → safe_at (probe_group v limit hosts jobs []) host ≡ true
  unfolding probe_groups unsafe_in_all member
  probe_groups_lem v limit hosts jobs host h =
      let probed = probe_group v limit hosts jobs [] in
      elim (Bool-cases (is_nil probed)) [
        | inl nothing ↦ unfold safe_at get in ground arith
        | inr there ↦
            unsafe_hosts_lem probed host
              (ground (arith, member-union (unsafe_hosts probed) [] host))
      ]

  pub length-probe_groups :
      (v : DomainVector K) (limit : JobUpTimeLimit) (group : List String × List K)
      → ltb 1 (length (probe_groups v limit (group ∷ []))) ≡ false
  unfolding probe_groups
  length-probe_groups v limit group = ground arith
