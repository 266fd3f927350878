-- ===== src/Samples.antt =====
-- Concrete inputs: runs of the model, and the theorems at inputs that meet their hypotheses.
mod Rules
mod Databases
mod Acl
mod Store
mod AclFile
mod Sparkplug
mod Conf
mod Dynsec
mod Control
mod Passwd
mod Deploy
