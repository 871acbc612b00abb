-- ===== src/Jwt/Keys.antt =====
-- The constructor of `JwtManager`, libs/jwt/JwtManager.cpp.
use management_sensors.Prelude.{
  Bool, true, false, Text, codes, ◌++◌, Outcome, ok, throw, std_exception, if◌then◌else◌, not,
}

-- The files and Botan: whether a file can be opened, and whether the key in it, or in a certificate, is
-- there; both may throw.
pub record KeyFiles : Type 0 where
  pub opens : Text → Bool
  pub load_key : Text → Outcome Bool
  pub subject_public_key : Text → Outcome Bool

public_key_loaded : Text → Outcome Bool → Outcome (Unit {0})
public_key_loaded path (throw e) = throw e
public_key_loaded path (ok true) = ok tt
public_key_loaded path (ok false) =
    throw (std_exception (codes "JwtManager: failed to extract public key from " ++ path))

private_key_loaded : KeyFiles → Text → Text → Outcome Bool → Outcome (Unit {0})
unfolding public_key_loaded
private_key_loaded f key_path certificate_path (throw e) = throw e
private_key_loaded f key_path certificate_path (ok true) =
    public_key_loaded certificate_path (f.subject_public_key certificate_path)
private_key_loaded f key_path certificate_path (ok false) =
    throw (std_exception (codes "JwtManager: failed to load private key from " ++ key_path))

-- `JwtManager::JwtManager`
unfoldable pub load_keys : KeyFiles → Text → Text → Outcome (Unit {0})
unfolding private_key_loaded
load_keys f key_path certificate_path =
    if not (f.opens key_path)
    then throw (std_exception (codes "JwtManager: cannot open " ++ key_path))
    else private_key_loaded f key_path certificate_path (f.load_key key_path)
