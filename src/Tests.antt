-- ===== src/Tests.antt =====
-- Concrete inputs for the theorems, and the outside of the program made concrete.
mod Memory
mod Toy
mod Opening
mod Windows
mod Hello
mod Works
mod Passport
mod LinuxKeys
mod Vault
mod ConnectServer
mod SystemCalls
mod ItemTexts
mod Wallet
mod Secrets
mod Files
mod Accounts
mod PasswordStore
mod Program
mod Tool
mod Keychains
mod Synchronizing
