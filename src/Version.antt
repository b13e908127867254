-- ===== src/Version.antt =====
-- crates/version/src/lib.rs and client/src/protos.rs: the information about a build, which the control server
-- gives and the client reads. What the build knows is a parameter.
use percas.Base.{Bool, if◌then◌else◌}
use percas.Text.{String, ◌<>◌}

-- The constants that the crate `shadow_rs` generates, and the two time stamps of the build script.
pub record Build : Type 0 where
  pub branch : String
  pub commit_hash : String
  pub short_commit : String
  pub git_clean : Bool
  pub source_timestamp : String
  pub build_timestamp : String
  pub rust_version : String
  pub build_target : String
  pub pkg_version : String

pub record BuildInfo : Type 0 where
  pub branch : String
  pub commit : String
  pub commit_short : String
  pub clean : Bool
  pub source_time : String
  pub build_time : String
  pub rustc : String
  pub target : String
  pub version : String

-- The same as the client reads it.
pub record Version : Type 0 where
  pub branch : String
  pub commit : String
  pub commit_short : String
  pub clean : Bool
  pub source_time : String
  pub build_time : String
  pub rustc : String
  pub target : String
  pub version : String

unfoldable pub build_info : ⦃b : Build⦄ → BuildInfo
build_info ⦃b⦄ = record {
  branch = b.branch;
  commit = b.commit_hash;
  commit_short = b.short_commit;
  clean = b.git_clean;
  source_time = b.source_timestamp;
  build_time = b.build_timestamp;
  rustc = b.rust_version;
  target = b.build_target;
  version = b.pkg_version;
}

unfoldable pub version : ⦃b : Build⦄ → String
unfolding build_info
version =
    "\nversion: "
    <> (build_info.version
        <> ("\nbranch: "
            <> (build_info.branch
                <> ("\ncommit: "
                    <> (build_info.commit
                        <> ("\nclean: "
                            <> ((if build_info.clean then "true" else "false")
                                <> ("\nsource_time: "
                                    <> (build_info.source_time
                                        <> ("\nbuild_time: "
                                            <> (build_info.build_time
                                                <> ("\nrustc: "
                                                    <> (build_info.rustc
                                                        <> ("\ntarget: "
                                                            <> build_info.target))))))))))))))
